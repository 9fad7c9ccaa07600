-- ===== src/Engine/Delivery/Loss.antt =====
-- From the replication stream to a cloud database that is out of reach: the subscriber, the channel
-- and the engine together.
use cloud_comp_project.Base.{
  ◌≡◌, ◌≢◌, inl, inr, refl, sym, ap, ◌∙◌, true, none, List, [], ◌∷◌, ◌++◌,
}
use cloud_comp_project.Interfaces.{Lsn, ChangeEvent}
use cloud_comp_project.Replication.Subscriber.{Subscriber, Postgres}
use cloud_comp_project.Replication.Subscriber.Stream.{consume_stream}
use cloud_comp_project.Replication.Subscriber.Stream.Events.{HasReader, consume_stream_fills}
use cloud_comp_project.Replication.Subscriber.Stream.Positions.{
  highest_commit, positions, HasServer, consume_stream_acknowledges,
}
use cloud_comp_project.Replication.Subscriber.Stream.Transactions.{
  Transaction, AreWhole, sent_messages, transaction_events,
}
use cloud_comp_project.Engine.{Context, Environment, Engine, flush}
use cloud_comp_project.Engine.Rule.{flush_rule}
use cloud_comp_project.Engine.Views.{IsUntouched}
use cloud_comp_project.Engine.Loop.{Input, loop}
use cloud_comp_project.Engine.Loop.Rule.{taken, engine_of, world_of, loop_rule}

-- The cloud database, of which `view` is what it holds, is out of reach: each publish fails and
-- changes nothing there. Nor does any other call.
pub record IsDown {W E V : Type 0} (env : Environment W E) (view : W → V) : Type 0 where
  pub publish_fails : (batch : List ChangeEvent) (w : W) → (env.publisher.publish batch w).0 ≢ none
  pub publish_keeps :
      (batch : List ChangeEvent) (w : W) → view (env.publisher.publish batch w).1 ≡ view w
  pub untouched : IsUntouched env view
  pub close_keeps : (w : W) → view (env.subscriber.close w).1 ≡ view w

module _ {W E V : Type 0} (env : Environment W E) (view : W → V) (down : IsDown env view) where
  flush_undelivered :
      (v : V) (ctx : Context) (e : Engine) (w : W)
      → view w ≡ v
      → ((flush env ctx e w).1.buffer ≡ e.buffer) × (view (flush env ctx e w).2 ≡ v)
  flush_undelivered v ctx e w h =
      elim (flush_rule env view down.untouched (λ x. x ≡ v) (λ x. (e.buffer ≡ []) × (x ≡ v)) ctx e w
        (λ w1 p done. absurd (down.publish_fails e.buffer w1 done))
        (λ w1 x p failed. down.publish_keeps e.buffer w1 ∙ p) (λ empty p. (empty, p)) h) [
          | inl (done, emptied, (empty, p)) ↦ (emptied ∙ sym empty, p)
          | inr (failed, same, p) ↦ (same, p)
        ]

  loop_undelivered :
      (inputs : List Input) (e : Engine) (w : W)
      → ((engine_of (loop env e w inputs)).buffer ≡ e.buffer ++ taken inputs)
        × (view (world_of (loop env e w inputs)) ≡ view w)
  loop_undelivered inputs e w =
      loop_rule env view down.untouched down.close_keeps
        (λ xs buffer v. (buffer ≡ xs) × (v ≡ view w))
        (λ xs buffer v ev h. (ap (λ l. l ++ ev ∷ []) h.0, h.1))
        (λ ctx xs e w1 h.
          let (same, p) = flush_undelivered (view w) ctx e w1 h.1 in (same ∙ h.0, p))
        inputs e.buffer e w (refl, refl)

  -- While the cloud database is out of reach, a connected subscriber whose status updates arrive
  -- reads a stream of whole transactions and sends its events on an empty channel, from which an
  -- engine with an empty buffer takes them all. Then the local PostgreSQL server has been told each
  -- commit of the stream as processed, although the cloud database is as it was and all the events
  -- of the stream are in the engine's buffer only, also after a shutdown.
  pub acknowledged_undelivered :
      {W' E' : Type 0} (pg : Postgres W' E') (offer : ChangeEvent → W' → W')
      (channel : W' → List ChangeEvent)
      → HasReader pg offer (λ ev. ev) channel
      → (told : W' → List Lsn) → HasServer pg offer told
      → (ts : List Transaction) (s : Subscriber) (w' : W') (inputs : List Input) (e : Engine)
        (w : W)
      → s.connected ≡ true
      → AreWhole ts
      → channel w' ≡ []
      → e.buffer ≡ []
      → taken inputs ≡ channel (consume_stream pg offer (sent_messages ts) s w').1
      → let read = consume_stream pg offer (sent_messages ts) s w' in
        let end = loop env e w inputs in
        (read.0.subscriber.last_acked_lsn ≡ highest_commit s.last_acked_lsn (sent_messages ts))
        × (told read.1 ≡ told w' ++ positions s.last_acked_lsn (sent_messages ts))
        × ((engine_of end).buffer ≡ transaction_events s.relations ts)
        × (view (world_of end) ≡ view w)
  acknowledged_undelivered pg offer channel reader told server ts s w' inputs e w on whole fresh
        empty all =
      let (kept, same) = loop_undelivered inputs e w in
      let (high, acknowledged) =
        consume_stream_acknowledges pg offer told server (sent_messages ts) s w' on in
      (
        high,
        acknowledged,
        kept
            ∙ ap (λ l. l ++ taken inputs) empty
            ∙ all
            ∙ consume_stream_fills pg offer channel reader ts s w' whole fresh,
        same,
      )
