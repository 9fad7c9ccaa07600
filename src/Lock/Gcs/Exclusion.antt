-- ===== src/Lock/Gcs/Exclusion.antt =====
-- What an answer of `Acquire` says of the lock object, when no other node interferes.
use cloud_comp_project.Base.{
  ℕ, ◌≡◌, ◌≢◌, ◌≤◌, sym, ◌⊎◌, inl, inr, refl, ◌∙◌, Bool, true, false, ℤ, Option, none, some, Text,
  arith, ltb, time_add,
}
use cloud_comp_project.Interfaces.{Result, ok, err}
use cloud_comp_project.Lock.Bucket.{
  LockMetadata, Body, encoded, WriteOutcome, stored, write_failed, close_status, close_failed,
  ReadOutcome, found, DeleteOutcome, deleted, nothing_to_delete, delete_failed, Program, Bucket,
  perform, perform-bind, IsConsistent, IsClocked, parse_rfc3339, format_rfc3339,
}
use cloud_comp_project.Lock.Gcs.{
  MetaError, meta_not_exist, LockError, GcsLock, new_meta, try_create, read_meta, created, parsed,
  after_expiry, acquire_from, unless_held, opening_reader, reading_lock_data, parsing_lock_metadata,
  acquire_existing, after_create, acquire,
}

ltb-false : (a b : ℕ) → ltb a b ≡ false → b ≤ a
ltb-false a b h = ground arith

module _ {E : Type 0} where
  created-true : (o : WriteOutcome E) → created o ≡ ok true → o ≡ stored
  unfolding created
  created-true o h = ground arith

  created-false : (o : WriteOutcome E) → created o ≡ ok false → (e : E) × (o ≡ close_status 412 e)
  unfolding created
  created-false stored h = cc
  created-false (write_failed e) h = cc
  created-false (close_status s e) h = (e, ground arith)
  created-false (close_failed e) h = cc

  pub parsed_ok : (o : ReadOutcome E) (m : LockMetadata) → parsed o ≡ ok m → o ≡ found (encoded m)
  unfolding parsed
  parsed_ok o m h = ground arith

module _ {W E : Type 0} (bucket : Bucket W E) (content : W → Text → Option Body) (clock : W → ℕ)
    (store : IsConsistent bucket content) (clocked : IsClocked bucket clock) (l : GcsLock)
    (key : Text) (ttl : ℤ) where
  -- At the world `w` the object holds this node's lease, which begins between the times of the
  -- worlds `w0` and `w`.
  abbrev pub HoldsFresh : W → W → Type 0
  HoldsFresh w0 w =
      (t : ℕ) × (clock w0 ≤ t)
      × (t ≤ clock w)
      × (content w key
          ≡ some (
              encoded (record {
                holder = l.node_id;
                acquired = format_rfc3339 t;
                expires_at = format_rfc3339 (time_add t ttl);
              })))

  earlier : (w w0 w1 : W) → clock w ≤ clock w0 → HoldsFresh w0 w1 → HoldsFresh w w1
  earlier w w0 w1 h (t, from, until, held) = (t, omega (arith, h, from), until, held)

  -- There is no object, or one whose lease is over by the time `t`.
  abbrev pub FreeBy : W → ℕ → Type 0
  FreeBy w t =
      (content w key ≡ none)
      ⊎ ((m : LockMetadata) × (e : ℕ) × (content w key ≡ some (encoded m))
          × (parse_rfc3339 m.expires_at ≡ some e)
          × (e ≤ t))

  abbrev pub creating : Program E (Result (LockError E) Bool)
  creating = try_create l key ttl

  create_granted :
      (w : W)
      → (perform bucket creating w).0 ≡ ok true
      → HoldsFresh w (perform bucket creating w).1 × (content w key ≡ none)
  unfolding try_create perform
  create_granted w h =
      let (t, w1) = bucket.now w in
      let b = encoded (new_meta l ttl t) in
      let e = created-true _ h in
      (
        (
          t,
          omega (arith, clocked.now_reads w),
          omega (
            arith,
            clocked.now_reads w,
            clocked.now_forward w,
            clocked.put_forward true key b w1,
          ),
          store.put_stored true w1 key b e,
        ),
        sym (store.now_keeps w key) ∙ store.put_absent w1 key b e,
      )

  pub create_refused :
      (w : W)
      → (perform bucket creating w).0 ≡ ok false
      → (content (perform bucket creating w).1 key ≡ content w key) × (content w key ≢ none)
  unfolding try_create perform
  create_refused w h =
      let (t, w1) = bucket.now w in
      let b = encoded (new_meta l ttl t) in
      let (e, p) = created-false _ h in
      (
        store.put_refused true w1 key b e p ∙ store.now_keeps w key,
        λ q. store.put_refused_present w1 key b e p (store.now_keeps w key ∙ q),
      )

  pub clock-create : (w : W) → clock w ≤ clock (perform bucket creating w).1
  unfolding try_create perform
  clock-create w = omega (
    arith,
    clocked.now_forward w,
    clocked.put_forward true key (encoded (new_meta l ttl (bucket.now w).0)) (bucket.now w).1,
  )

  expiry_granted :
      (o : DeleteOutcome E) (w : W)
      → (perform bucket (after_expiry l key ttl o) w).0 ≡ ok true
      → HoldsFresh w (perform bucket (after_expiry l key ttl o) w).1
        × (clock w ≤ clock (perform bucket (after_expiry l key ttl o) w).1)
  unfolding after_expiry
  expiry_granted deleted w h = ((create_granted w h).0, clock-create w)
  expiry_granted nothing_to_delete w h = ((create_granted w h).0, clock-create w)
  expiry_granted (delete_failed e) w h = absurd (unfold perform in cc)

  unless_granted :
      (held : Bool) (w : W)
      → (perform bucket (unless_held l key ttl held) w).0 ≡ ok true
      → (held ≡ false)
        × HoldsFresh w (perform bucket (unless_held l key ttl held) w).1
        × (clock w ≤ clock (perform bucket (unless_held l key ttl held) w).1)
  unfolding unless_held perform
  unless_granted true w h = absurd (cc)
  unless_granted false w h =
      let (o, w1) = bucket.remove key w in
      let (fresh, later) = expiry_granted o w1 h in
      let removed = clocked.remove_forward key w in
      (refl, earlier w w1 _ removed fresh, omega (arith, later, removed))

  -- a lease that is found in the object of `w`, at the world `w1`
  lease_granted :
      (x : Option ℕ) (w w1 : W) (m : LockMetadata)
      → content w key ≡ some (encoded m)
      → parse_rfc3339 m.expires_at ≡ x
      → (perform bucket (acquire_from l key ttl x) w1).0 ≡ ok true
      → HoldsFresh w1 (perform bucket (acquire_from l key ttl x) w1).1
        × FreeBy w (clock (perform bucket (acquire_from l key ttl x) w1).1)
  unfolding acquire_from perform
  lease_granted none w w1 m c p h = absurd (unfold unless_held in cc)
  lease_granted (some e) w w1 m c p h =
      let (t, w2) = bucket.now w1 in
      let (free, fresh, later) = unless_granted (ltb t e) w2 h in
      (
        earlier w1 w2 _ (clocked.now_forward w1) fresh,
        inr (
          m,
          e,
          c,
          p,
          omega (arith, ltb-false t e free, clocked.now_reads w1, clocked.now_forward w1, later),
        ),
      )

  existing_granted :
      (r : Result (MetaError E) LockMetadata) (w w1 : W)
      → ((m : LockMetadata) → r ≡ ok m → content w key ≡ some (encoded m))
      → (r ≡ err meta_not_exist → content w1 key ≡ content w key)
      → (perform bucket (acquire_existing l key ttl r) w1).0 ≡ ok true
      → HoldsFresh w1 (perform bucket (acquire_existing l key ttl r) w1).1
        × FreeBy w (clock (perform bucket (acquire_existing l key ttl r) w1).1)
  unfolding acquire_existing
  existing_granted (ok m) w w1 c same h = lease_granted _ w w1 m (c m refl) refl h
  existing_granted (err meta_not_exist) w w1 c same h =
      let (fresh, free) = create_granted w1 h in (fresh, inl (sym (same refl) ∙ free))
  existing_granted (err (opening_reader e)) w w1 c same h = absurd (unfold perform in cc)
  existing_granted (err (reading_lock_data e)) w w1 c same h = absurd (unfold perform in cc)
  existing_granted (err (parsing_lock_metadata s)) w w1 c same h = absurd (unfold perform in cc)

  created_granted :
      (r : Result (LockError E) Bool) (w w1 : W)
      → clock w ≤ clock w1
      → (r ≡ ok true → HoldsFresh w w1 × (content w key ≡ none))
      → (r ≡ ok false → content w1 key ≡ content w key)
      → (perform bucket (after_create l key ttl r) w1).0 ≡ ok true
      → HoldsFresh w (perform bucket (after_create l key ttl r) w1).1
        × FreeBy w (clock (perform bucket (after_create l key ttl r) w1).1)
  unfolding after_create
  created_granted (err e) w w1 later got same h = absurd (unfold perform in cc)
  created_granted (ok true) w w1 later got same h =
      unfold perform in let (fresh, free) = got refl in (fresh, inl free)
  created_granted (ok false) w w1 later got same h =
      let (o, w2) = bucket.get key w1 in
      let kept = store.get_keeps w1 key key ∙ same refl in
      unfold perform read_meta in
      let (fresh, free) =
        existing_granted (parsed o) w w2
          (λ m p. sym (same refl) ∙ store.get_found w1 key (encoded m) (parsed_ok o m p))
          (λ _. kept) h in
      (earlier w w2 _ (omega (arith, later, clocked.get_forward key w1)) fresh, free)

  -- With a strongly consistent bucket and a clock that never goes back, and no other node between
  -- its requests: if `Acquire` returns true, then the lock object held nothing before, or a lease
  -- that is over by the end of the call; and after it the object names this node as the holder,
  -- with a lease from some time during the call until the TTL after it, in whole seconds.
  pub acquire_granted :
      (w : W)
      → (perform bucket (acquire l key ttl) w).0 ≡ ok true
      → HoldsFresh w (perform bucket (acquire l key ttl) w).1
        × FreeBy w (clock (perform bucket (acquire l key ttl) w).1)
  unfolding acquire
  acquire_granted w = rw (perform-bind bucket creating (after_create l key ttl) w) (
      created_granted (perform bucket creating w).0 w (perform bucket creating w).1 (clock-create w)
        (create_granted w) (λ h. (create_refused w h).0))
