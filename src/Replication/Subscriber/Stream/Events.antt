-- ===== src/Replication/Subscriber/Stream/Events.antt =====
-- state-sync-engine/internal/replication/subscriber.go: the events that `consumeStream` sends for a
-- stream of whole transactions.
use mathlib.Core.List.{append-nil, append_assoc, map-append, map-id}
use cloud_comp_project.Base.{
  ◌≡◌, refl, sym, ap, ◌∙◌, Bool, true, false, Option, none, some, List, [], ◌∷◌, ◌++◌, map,
  if◌then◌else◌,
}
use cloud_comp_project.Interfaces.{
  Lsn, ChangeEvent, operation_insert, operation_update, operation_delete,
}
use cloud_comp_project.Replication.Subscriber.{
  Subscriber, Postgres, SubscriberError, after_status, acknowledge,
}
use cloud_comp_project.Replication.Subscriber.Tuples.{
  store_relation, relation_name, relation_columns,
}
use cloud_comp_project.Replication.Subscriber.Stream.{
  Message, keepalive, begin_message, relation_message, insert_message, update_message,
  delete_message, commit_message, skipped, Consumer, acknowledged, change, consume, consume_all,
  consume_stream,
}
use cloud_comp_project.Replication.Subscriber.Stream.Transactions.{
  Transaction, AreWhole, stays_inside, sent_messages, Catalog, noted, row_event, change_events,
  known_after, transaction_events,
}

-- `log` holds what `view` shows of each event: the channel takes every event that is offered, and no
-- other call adds one.
pub record HasReader {W E A : Type 0} (pg : Postgres W E) (offer : ChangeEvent → W → W)
    (view : ChangeEvent → A) (log : W → List A) : Type 0 where
  pub taken : (ev : ChangeEvent) (w : W) → log (offer ev w) ≡ log w ++ view ev ∷ []
  pub status_keeps : (lsn : Lsn) (w : W) → log (pg.send_standby_status lsn w).1 ≡ log w

module _ {W E A : Type 0} (pg : Postgres W E) (offer : ChangeEvent → W → W) (view : ChangeEvent → A)
    (log : W → List A) (reader : HasReader pg offer view log) where
  -- An acknowledgement sends no event and keeps the relations.
  abbrev Quiet : Catalog → List A → Option (SubscriberError E) × Subscriber × W → Type 0
  Quiet known v x = (x.1.relations ≡ known) × (log x.2 ≡ v)

  status-Quiet :
      (lsn : Lsn) (e : Option E) (s : Subscriber) (w : W)
      → Quiet s.relations (log w) (after_status pg lsn e s w)
  unfolding after_status
  status-Quiet lsn none s w = (refl, refl)
  status-Quiet lsn (some e) s w = (refl, refl)

  either :
      (known : Catalog) (v : List A) (b : Bool) (x y : Option (SubscriberError E) × Subscriber × W)
      → Quiet known v x
      → Quiet known v y
      → Quiet known v (if b then x else y)
  either known v true x y p q = p
  either known v false x y p q = q

  acknowledge-Quiet :
      (lsn : Lsn) (s : Subscriber) (w : W) → Quiet s.relations (log w) (acknowledge pg lsn s w)
  unfolding acknowledge
  acknowledge-Quiet lsn s w =
      let w' = (pg.send_standby_status lsn w).1 in
      let (same, quiet) = status-Quiet lsn (pg.send_standby_status lsn w).0 s w' in
      either s.relations (log w) s.connected _ _ (same, quiet ∙ reader.status_keeps lsn w)
        (refl, refl)

  -- What the events of a stretch of messages add.
  abbrev Adds : W → List A → W → Type 0
  Adds w l w' = log w' ≡ log w ++ l

  one_more :
      (w : W) (ev want : ChangeEvent) (l : List A) (w' : W)
      → ev ≡ want
      → Adds (offer ev w) l w'
      → Adds w (view want ∷ l) w'
  one_more w ev want l w' same h =
      h
      ∙ ap (λ x. x ++ l) (reader.taken ev w)
      ∙ append_assoc (log w) (view ev ∷ []) l
      ∙ ap (λ x. log w ++ view x ∷ l) same

  same_more : (w w1 : W) (l : List A) (w' : W) → log w1 ≡ log w → Adds w1 l w' → Adds w l w'
  same_more w w1 l w' p h = h ∙ ap (λ x. x ++ l) p

  inside :
      (ms rest : List Message) (l : List A) (known : Catalog)
      → stays_inside ms ≡ true
      → ((c : Consumer) (w : W)
          → c.subscriber.relations ≡ known_after known ms
          → Adds w l (consume_all pg offer rest c w).1)
      → (c : Consumer) (w : W) → c.subscriber.relations ≡ known
      → Adds w
          (map view (change_events known c.tx_lsn c.tx_time ms) ++ l)
          (consume_all pg offer (ms ++ rest) c w).1
  unfolding consume_all consume acknowledged change relation_name relation_columns store_relation
  inside [] rest l known h k c w p = k c w p
  inside (keepalive false ∷ ms) rest l known h k c w p = inside ms rest l known h k c w p
  inside (keepalive true ∷ ms) rest l known h k c w p =
      let last = c.subscriber.last_acked_lsn in
      let (same, quiet) = acknowledge-Quiet last c.subscriber w in
      same_more w (acknowledge pg last c.subscriber w).2 _ _ quiet
        (inside ms rest l known h k _ _ (same ∙ p))
  inside (begin_message x t ∷ ms) rest l known h k c w p = cc
  inside (relation_message m ∷ ms) rest l known h k c w p =
      inside ms rest l (noted m known) h k (record c { subscriber = store_relation m c.subscriber })
        w (ap (noted m) p)
  inside (insert_message id new ∷ ms) rest l known h k c w p =
      one_more w (change pg offer c id operation_insert none new) _ _ _
        (ap (λ x. row_event x c.tx_lsn c.tx_time id operation_insert none new) p)
        (inside ms rest l known h k c _ p)
  inside (update_message id old new ∷ ms) rest l known h k c w p =
      one_more w (change pg offer c id operation_update old new) _ _ _
        (ap (λ x. row_event x c.tx_lsn c.tx_time id operation_update old new) p)
        (inside ms rest l known h k c _ p)
  inside (delete_message id old ∷ ms) rest l known h k c w p =
      one_more w (change pg offer c id operation_delete old none) _ _ _
        (ap (λ x. row_event x c.tx_lsn c.tx_time id operation_delete old none) p)
        (inside ms rest l known h k c _ p)
  inside (commit_message x ∷ ms) rest l known h k c w p = cc
  inside (skipped ∷ ms) rest l known h k c w p = inside ms rest l known h k c w p

  transactions :
      (ts : List Transaction) (known : Catalog)
      → AreWhole ts
      → (c : Consumer) (w : W) → c.subscriber.relations ≡ known
      → Adds w
          (map view (transaction_events known ts))
          (consume_all pg offer (sent_messages ts) c w).1
  unfolding consume_all consume acknowledged
  transactions [] known h c w p = sym (append-nil (log w))
  transactions (t ∷ ts) known (whole, h) c w p =
      let later = known_after known t.changes in
      inside t.changes (commit_message t.commit_lsn ∷ sent_messages ts)
        (map view (transaction_events later ts)) known whole
        (λ c' w' q.
          let (same, quiet) = acknowledge-Quiet t.commit_lsn c'.subscriber w' in
          same_more w' (acknowledge pg t.commit_lsn c'.subscriber w').2 _ _ quiet
            (transactions ts later h _ _ (same ∙ q)))
        (record c { tx_lsn = t.final_lsn; tx_time = t.commit_time }) w p
      ∙ ap (λ x. log w ++ x)
          (sym (
            map-append view (change_events known t.final_lsn t.commit_time t.changes)
              (transaction_events later ts)))

  -- If the stream is one of whole transactions, the channel takes every event, and nothing else adds
  -- to it, then the subscriber emits one event for each inserted, updated or deleted row, in order,
  -- and no others. The event has the final position and the commit time of its own transaction,
  -- the operation, the table that the latest relation message on its relation names, and the values
  -- of the rows under the column names of that relation message.
  pub consume_stream_events :
      (ts : List Transaction) (s : Subscriber) (w : W)
      → AreWhole ts
      → log (consume_stream pg offer (sent_messages ts) s w).1
        ≡ log w ++ map view (transaction_events s.relations ts)
  unfolding consume_stream
  consume_stream_events ts s w h = transactions ts s.relations h _ w refl

-- On an empty channel these events are all there is.
pub consume_stream_fills :
    {W E : Type 0} (pg : Postgres W E) (offer : ChangeEvent → W → W)
    (channel : W → List ChangeEvent)
    → HasReader pg offer (λ ev. ev) channel
    → (ts : List Transaction) (s : Subscriber) (w : W) → AreWhole ts
    → channel w ≡ []
    → channel (consume_stream pg offer (sent_messages ts) s w).1 ≡ transaction_events s.relations ts
consume_stream_fills pg offer channel reader ts s w whole fresh =
    consume_stream_events pg offer (λ ev. ev) channel reader ts s w whole
    ∙ ap (λ l. l ++ map (λ ev. ev) (transaction_events s.relations ts)) fresh
    ∙ map-id (transaction_events s.relations ts)
