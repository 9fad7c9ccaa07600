-- ===== src/Lock/System/Contention.antt =====
-- A node that has called `Acquire`, request by request.
use cloud_comp_project.Base.{
  ℕ, ◌+◌, ◌-◌, ◌%◌, ◌≡◌, ◌≢◌, ◌≤◌, ◌<◌, ◌⊎◌, inl, inr, refl, sym, ap, ◌∙◌, subst, Bool, true, false,
  lt→ltb, Option, none, some, Text, ℤ, pos, arith, second, time_add,
}
use cloud_comp_project.Interfaces.{Result, ok}
use cloud_comp_project.Lock.Bucket.{
  parse_rfc3339, format_rfc3339, LockMetadata, Body, encoded, stored, close_status, found,
  object_not_exist, return, ask_now, write, read, delete,
}
use cloud_comp_project.Lock.Gcs.{
  LockError, GcsLock, new_meta, parsed, acquire_from, acquire_existing, acquire,
}
use cloud_comp_project.Lock.Memory.{Memory, memory_bucket}
use cloud_comp_project.Lock.Race.{turn}
use cloud_comp_project.Lock.System.{Call}
use cloud_comp_project.Lock.System.Answers.{put_free, put_held, get_free, get_held, put_at_self}

abbrev pub Ended : Call → Type 0
Ended p = (r : Result (LockError (Unit {0})) Bool) × (p ≡ return r)

-- From the time `from` on, and before `limit`.
module _ (key : Text) (from limit : ℕ) where
  -- The body is a lease that is not over before the limit.
  abbrev pub Lasts : Body → Type 0
  Lasts b =
      (m : LockMetadata) × (e : ℕ) × (b ≡ encoded m)
      × (parse_rfc3339 m.expires_at ≡ some e)
      × (limit ≤ e)

  -- The call has not acquired the lock; it will only by creating the object, with a lease that
  -- lasts, and while an object with such a lease is there it neither changes nor deletes it.
  abbrev pub Contends : Call → Type 0
  Contends (return r) = r ≢ ok true
  Contends (ask_now k) = (t : ℕ) → from ≤ t → t < limit → Contends (k t)
  Contends (write false j b k) = ⊥
  Contends (write true j b k) =
      (j ≡ key) × Lasts b × Ended (k stored) × ((e : Unit {0}) → Contends (k (close_status 412 e)))
  Contends (read j k) =
      (j ≡ key) × Contends (k object_not_exist) × ((b : Body) → Lasts b → Contends (k (found b)))
  Contends (delete j k) = ⊥

  new_meta-Lasts :
      (l : GcsLock) (ttl t : ℕ)
      → limit + second ≤ from + ttl
      → from ≤ t
      → Lasts (encoded (new_meta l (pos ttl) t))
  unfolding format_rfc3339 time_add
  new_meta-Lasts l ttl t long after =
      (new_meta l (pos ttl) t, (t + ttl) - (t + ttl) % second, refl, refl, omega arith)

  -- a lease that lasts is not over when it is tested
  leased-Contends :
      (l : GcsLock) (ttl : ℤ) (o : Option ℕ) (e : ℕ)
      → o ≡ some e
      → limit ≤ e
      → Contends (acquire_from l key ttl o)
  unfolding acquire
  leased-Contends l ttl none e p late = cc
  leased-Contends l ttl (some x) e p late =
      λ t after before. rw (lt→ltb t x (ground arith)) (λ q. cc)

  pub acquire-Contends :
      (l : GcsLock) (ttl : ℕ) → limit + second ≤ from + ttl → Contends (acquire l key (pos ttl))
  unfolding acquire
  acquire-Contends l ttl long t after before = (
    refl,
    new_meta-Lasts l ttl t long after,
    (ok true, refl),
    λ e. (
      refl,
      λ t' after' before'. (refl, new_meta-Lasts l ttl t' long after', (ok true, refl), λ e' q. cc),
      λ b (m, x, p, q, late).
          subst (λ b. Contends (acquire_existing l key (pos ttl) (parsed (found b)))) (sym p)
            (leased-Contends l (pos ttl) (parse_rfc3339 m.expires_at) x q late),
    ),
  )

  -- What the next request of a contender does while there is no object, and while there is one with
  -- a lease that lasts.
  abbrev pub Wins : Memory → Call × Memory → Type 0
  Wins w (p, w') =
      (w'.time ≡ w.time)
      × (((w'.object key ≡ none) × Contends p)
          ⊎ ((b : Body) × (w'.object key ≡ some b) × Lasts b × Ended p))

  pub turn_free :
      (p : Call) (w : Memory)
      → Contends p
      → w.object key ≡ none
      → from ≤ w.time
      → w.time < limit
      → Wins w (turn memory_bucket p w)
  unfolding turn
  turn_free (return r) w h free after before = (refl, inl (free, h))
  turn_free (ask_now k) w h free after before = (refl, inl (free, h w.time after before))
  turn_free (write true j b k) w (same, lasts, done, k412) free after before =
      subst (λ r. Wins w (k r.0, r.1)) (sym (put_free w j b (ap w.object same ∙ free)))
        (refl, inr (b, rw same (put_at_self w.object key b), lasts, done))
  turn_free (read j k) w (same, missing, present) free after before =
      subst (λ o. Wins w (k o, w)) (sym (get_free w j (ap w.object same ∙ free)))
        (refl, inl (free, missing))
  turn_free (write false j b k) w h free after before = absurd h
  turn_free (delete j k) w h free after before = absurd h

  pub turn_held :
      (p : Call) (w : Memory) (b : Body)
      → Contends p
      → w.object key ≡ some b
      → Lasts b
      → from ≤ w.time
      → w.time < limit
      → let (p', w') = turn memory_bucket p w in (w' ≡ w) × Contends p'
  unfolding turn
  turn_held (return r) w b h held lasts after before = (refl, h)
  turn_held (ask_now k) w b h held lasts after before = (refl, h w.time after before)
  turn_held (write true j c k) w b (same, l, done, k412) held lasts after before =
      subst (λ r. (r.1 ≡ w) × Contends (k r.0)) (sym (put_held w j c b (ap w.object same ∙ held)))
        (refl, k412 tt)
  turn_held (read j k) w b (same, missing, present) held lasts after before =
      subst (λ o. (w ≡ w) × Contends (k o)) (sym (get_held w j b (ap w.object same ∙ held)))
        (refl, present b lasts)
  turn_held (write false j c k) w b h held lasts after before = absurd h
  turn_held (delete j k) w b h held lasts after before = absurd h

  pub turn-Ended :
      (p : Call) (w : Memory)
      → Ended p
      → let (p', w') = turn memory_bucket p w in (w' ≡ w) × Ended p'
  unfolding turn
  turn-Ended p w (r, e) = rw e (refl, (r, refl))
