-- ===== src/Replication/Subscriber/Stream/Positions.antt =====
-- Which positions the stream acknowledges, and when.
use mathlib.Core.List.{append-nil, append_assoc}
use cloud_comp_project.Base.{
  ◌≡◌, refl, sym, ap, ◌∙◌, Bool, true, false, max, Option, none, some, List, [], ◌∷◌, ◌++◌, arith,
  if◌then◌else◌,
}
use cloud_comp_project.Interfaces.{Lsn, ChangeEvent}
use cloud_comp_project.Replication.Subscriber.{
  Subscriber, Postgres, SubscriberError, after_status, acknowledge,
}
use cloud_comp_project.Replication.Subscriber.Tuples.{store_relation}
use cloud_comp_project.Replication.Subscriber.Stream.{
  Message, keepalive, begin_message, relation_message, insert_message, update_message,
  delete_message, commit_message, skipped, Consumer, acknowledged, consume, consume_all,
  consume_stream,
}

-- The highest of a position and of the commits among messages.
abbrev pub highest_commit : Lsn → List Message → Lsn
highest_commit lsn [] = lsn
highest_commit lsn (commit_message commit_lsn ∷ ms) = highest_commit (max lsn commit_lsn) ms
highest_commit lsn (_ ∷ ms) = highest_commit lsn ms

-- The positions that messages call for: each commit, as it is read, and the highest position so far
-- in reply to a keepalive that asks for one.
abbrev pub positions : Lsn → List Message → List Lsn
positions lsn [] = []
positions lsn (keepalive true ∷ ms) = lsn ∷ positions lsn ms
positions lsn (commit_message commit_lsn ∷ ms) = commit_lsn ∷ positions (max lsn commit_lsn) ms
positions lsn (_ ∷ ms) = positions lsn ms

-- `told` lists the positions that the PostgreSQL server has been told are processed: each status
-- update arrives there, and no event that is offered to the channel adds one.
pub record HasServer {W E : Type 0} (pg : Postgres W E) (offer : ChangeEvent → W → W)
    (told : W → List Lsn) : Type 0 where
  pub sends : (lsn : Lsn) (w : W) → (pg.send_standby_status lsn w).0 ≡ none
  pub tells : (lsn : Lsn) (w : W) → told (pg.send_standby_status lsn w).1 ≡ told w ++ lsn ∷ []
  pub offer_keeps : (ev : ChangeEvent) (w : W) → told (offer ev w) ≡ told w

module _ {W E : Type 0} (pg : Postgres W E) (offer : ChangeEvent → W → W) (told : W → List Lsn)
    (server : HasServer pg offer told) where
  -- The position is recorded and the server told.
  abbrev Acknowledged : Lsn → Subscriber → W → Option (SubscriberError E) × Subscriber × W → Type 0
  Acknowledged lsn s w r =
      (r.1.last_acked_lsn ≡ max s.last_acked_lsn lsn)
      × (r.1.connected ≡ true)
      × (told r.2 ≡ told w ++ lsn ∷ [])

  status_lem :
      (lsn : Lsn) (e : Option E) (s : Subscriber) (w w1 : W)
      → e ≡ none
      → s.connected ≡ true
      → told w1 ≡ told w ++ lsn ∷ []
      → Acknowledged lsn s w (after_status pg lsn e s w1)
  unfolding after_status
  status_lem lsn none s w w1 p h t = (ground arith, h, t)
  status_lem lsn (some e) s w w1 p h t = cc

  chosen :
      (P : Option (SubscriberError E) × Subscriber × W → Type 0) (b : Bool)
      (x y : Option (SubscriberError E) × Subscriber × W)
      → b ≡ true
      → P x
      → P (if b then x else y)
  chosen P true x y h p = p
  chosen P false x y h p = cc

  acknowledge_lem :
      (lsn : Lsn) (s : Subscriber) (w : W)
      → s.connected ≡ true
      → Acknowledged lsn s w (acknowledge pg lsn s w)
  unfolding acknowledge
  acknowledge_lem lsn s w h =
      chosen (Acknowledged lsn s w) s.connected _ _ h
        (status_lem lsn _ s w _ (server.sends lsn w) h (server.tells lsn w))

  abbrev acked : Consumer → Lsn
  acked c = c.subscriber.last_acked_lsn

  -- The messages raise the position from `lsn`, and tell the server theirs behind those of `w`.
  abbrev Tells : Lsn → W → List Message → Lsn → List Lsn → Type 0
  Tells lsn w ms high log = (high ≡ highest_commit lsn ms) × (log ≡ told w ++ positions lsn ms)

  one_more :
      (lsn told_lsn next : Lsn) (w w1 : W) (ms : List Message) (high : Lsn) (log : List Lsn)
      → next ≡ lsn
      → told w1 ≡ told w ++ told_lsn ∷ []
      → Tells next w1 ms high log
      → (high ≡ highest_commit lsn ms) × (log ≡ told w ++ told_lsn ∷ positions lsn ms)
  one_more lsn told_lsn next w w1 ms high log p t (raised, all) = (
    raised ∙ ap (λ l. highest_commit l ms) p,
    all
        ∙ ap (λ l. told w1 ++ positions l ms) p
        ∙ ap (λ l. l ++ positions lsn ms) t
        ∙ append_assoc (told w) (told_lsn ∷ []) (positions lsn ms),
  )

  same_told :
      (lsn : Lsn) (ev : ChangeEvent) (w : W) (ms : List Message) (high : Lsn) (log : List Lsn)
      → Tells lsn (offer ev w) ms high log
      → Tells lsn w ms high log
  same_told lsn ev w ms high log (raised, all) =
      (raised, all ∙ ap (λ l. l ++ positions lsn ms) (server.offer_keeps ev w))

  all_commits :
      (ms : List Message) (c : Consumer) (w : W)
      → c.subscriber.connected ≡ true
      → let (c', w') = consume_all pg offer ms c w in Tells (acked c) w ms (acked c') (told w')
  unfolding consume_all consume acknowledged store_relation
  all_commits [] c w h = (refl, sym (append-nil (told w)))
  all_commits (keepalive false ∷ ms) c w h = all_commits ms c w h
  all_commits (keepalive true ∷ ms) c w h =
      let (same, on, t) = acknowledge_lem (acked c) c.subscriber w h in
      one_more (acked c) (acked c) _ w _ ms _ _ (same ∙ omega arith) t (all_commits ms _ _ on)
  all_commits (begin_message l t ∷ ms) c w h = all_commits ms _ w h
  all_commits (relation_message m ∷ ms) c w h = all_commits ms _ w h
  all_commits (insert_message id t ∷ ms) c w h =
      same_told (acked c) _ w ms _ _ (all_commits ms c _ h)
  all_commits (update_message id t u ∷ ms) c w h =
      same_told (acked c) _ w ms _ _ (all_commits ms c _ h)
  all_commits (delete_message id t ∷ ms) c w h =
      same_told (acked c) _ w ms _ _ (all_commits ms c _ h)
  all_commits (commit_message l ∷ ms) c w h =
      let (raised, on, t) = acknowledge_lem l c.subscriber w h in
      one_more (max (acked c) l) l _ w _ ms _ _ raised t (all_commits ms _ _ on)
  all_commits (skipped ∷ ms) c w h = all_commits ms c w h

  -- If the subscriber is connected and every status update arrives, then reading the stream tells
  -- the PostgreSQL server each commit as it is read, and in reply to a keepalive the highest
  -- position so far, in order and nothing else; and the recorded position is at the end the highest
  -- of the one before and of the commits. This holds whatever becomes of the events that are
  -- offered to the channel: none need have been taken from it, let alone been published.
  pub consume_stream_acknowledges :
      (ms : List Message) (s : Subscriber) (w : W)
      → s.connected ≡ true
      → let (c, w') = consume_stream pg offer ms s w in
        (c.subscriber.last_acked_lsn ≡ highest_commit s.last_acked_lsn ms)
        × (told w' ≡ told w ++ positions s.last_acked_lsn ms)
  unfolding consume_stream
  consume_stream_acknowledges ms s w h = all_commits ms _ w h
