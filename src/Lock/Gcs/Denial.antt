-- ===== src/Lock/Gcs/Denial.antt =====
-- What a refusal by `Acquire` says of the lock object, and what the holder's calls do to it.
use cloud_comp_project.Base.{
  ℕ, ◌≡◌, ◌≢◌, ◌≤◌, ◌<◌, sym, ◌⊎◌, inl, inr, refl, ◌∙◌, Bool, true, false, ℤ, Option, none, some,
  Text, arith, ltb,
}
use cloud_comp_project.Interfaces.{Result, ok, err}
use cloud_comp_project.Lock.Bucket.{
  LockMetadata, Body, encoded, ReadOutcome, object_not_exist, DeleteOutcome, deleted,
  nothing_to_delete, delete_failed, Program, Bucket, perform, perform-bind, IsConsistent, IsClocked,
  parse_rfc3339,
}
use cloud_comp_project.Lock.Gcs.{
  MetaError, meta_not_exist, LockError, GcsLock, try_create, read_meta, parsed, after_expiry,
  acquire_from, unless_held, opening_reader, reading_lock_data, parsing_lock_metadata,
  acquire_existing, after_create, acquire,
}
use cloud_comp_project.Lock.Gcs.Exclusion.{create_refused, parsed_ok, clock-create}

ltb-true : (a b : ℕ) → ltb a b ≡ true → a < b
ltb-true a b h = ground arith

pub parsed_missing :
    {E : Type 0} (o : ReadOutcome E) → parsed o ≡ err meta_not_exist → o ≡ object_not_exist
unfolding parsed
parsed_missing o h = ground arith

module _ {W E : Type 0} (bucket : Bucket W E) (content : W → Text → Option Body) (clock : W → ℕ)
    (store : IsConsistent bucket content) (clocked : IsClocked bucket clock) (l : GcsLock)
    (key : Text) (ttl : ℤ) where
  -- The object holds metadata that a node keeps at the time `t`: its expiry does not parse, or is
  -- still to come.
  abbrev pub HeldAt : W → ℕ → Type 0
  HeldAt w t =
      (m : LockMetadata) × (content w key ≡ some (encoded m))
      × ((parse_rfc3339 m.expires_at ≡ none)
          ⊎ ((e : ℕ) × (parse_rfc3339 m.expires_at ≡ some e) × (t < e)))

  -- `p` refuses at `w`: what the object held at `w0` is kept, and was held at that time.
  abbrev Refuses : W → W → Program E (Result (LockError E) Bool) → Type 0
  Refuses w0 w p =
      (perform bucket p w).0 ≡ ok false
      → (content (perform bucket p w).1 key ≡ content w0 key) × HeldAt w0 (clock w0)

  trying : Program E (Result (LockError E) Bool)
  trying = try_create l key ttl

  no_refusal :
      (w : W) → content w key ≡ none → (perform bucket (try_create l key ttl) w).0 ≢ ok false
  no_refusal w c h = (create_refused bucket content clock store clocked l key ttl w h).1 c

  expiry-Refuses :
      (o : DeleteOutcome E) (w0 w : W)
      → (o ≡ deleted → content w key ≡ none)
      → (o ≡ nothing_to_delete → content w key ≡ none)
      → Refuses w0 w (after_expiry l key ttl o)
  unfolding after_expiry
  expiry-Refuses deleted w0 w d n h = absurd (no_refusal w (d refl) h)
  expiry-Refuses nothing_to_delete w0 w d n h = absurd (no_refusal w (n refl) h)
  expiry-Refuses (delete_failed e) w0 w d n h = absurd (unfold perform in cc)

  unless-Refuses :
      (held : Bool) (w0 w : W)
      → content w key ≡ content w0 key
      → (held ≡ true → HeldAt w0 (clock w0))
      → Refuses w0 w (unless_held l key ttl held)
  unfolding unless_held perform
  unless-Refuses true w0 w same keep h = (same, keep refl)
  unless-Refuses false w0 w same keep h =
      let (o, w1) = bucket.remove key w in
      expiry-Refuses o w0 w1 (λ p. store.remove_deleted w key p) (λ p. store.remove_missing w key p)
        h

  lease-Refuses :
      (x : Option ℕ) (w0 w : W) (m : LockMetadata)
      → content w key ≡ content w0 key
      → clock w0 ≤ clock w
      → content w0 key ≡ some (encoded m)
      → parse_rfc3339 m.expires_at ≡ x
      → Refuses w0 w (acquire_from l key ttl x)
  unfolding acquire_from
  lease-Refuses none w0 w m same later c p = unless-Refuses true w0 w same (λ _. (m, c, inl p))
  lease-Refuses (some e) w0 w m same later c p =
      let (t, w1) = bucket.now w in
      unfold perform in
      unless-Refuses (ltb t e) w0 w1 (store.now_keeps w key ∙ same)
        (λ h. (m, c, inr (e, p, omega (arith, ltb-true t e h, clocked.now_reads w, later))))

  existing-Refuses :
      (r : Result (MetaError E) LockMetadata) (w0 w : W)
      → content w key ≡ content w0 key
      → clock w0 ≤ clock w
      → ((m : LockMetadata) → r ≡ ok m → content w0 key ≡ some (encoded m))
      → (r ≡ err meta_not_exist → content w key ≡ none)
      → Refuses w0 w (acquire_existing l key ttl r)
  unfolding acquire_existing
  existing-Refuses (ok m) w0 w same later c gone = lease-Refuses _ w0 w m same later (c m refl) refl
  existing-Refuses (err meta_not_exist) w0 w same later c gone =
      λ h. absurd (no_refusal w (gone refl) h)
  existing-Refuses (err (opening_reader e)) w0 w same later c gone =
      λ h. absurd (unfold perform in cc)
  existing-Refuses (err (reading_lock_data e)) w0 w same later c gone =
      λ h. absurd (unfold perform in cc)
  existing-Refuses (err (parsing_lock_metadata s)) w0 w same later c gone =
      λ h. absurd (unfold perform in cc)

  created-Refuses :
      (r : Result (LockError E) Bool) (w0 w : W)
      → (r ≡ ok false → content w key ≡ content w0 key)
      → (r ≡ ok false → content w key ≢ none)
      → clock w0 ≤ clock w
      → Refuses w0 w (after_create l key ttl r)
  unfolding after_create
  created-Refuses (err e) w0 w same present later h = absurd (unfold perform in cc)
  created-Refuses (ok true) w0 w same present later h = absurd (unfold perform in cc)
  created-Refuses (ok false) w0 w same present later h =
      let (o, w1) = bucket.get key w in
      let kept = store.get_keeps w key key in
      unfold perform read_meta in
      existing-Refuses (parsed o) w0 w1 (kept ∙ same refl)
        (omega (arith, later, clocked.get_forward key w))
        (λ m p. sym (same refl) ∙ store.get_found w key (encoded m) (parsed_ok o m p))
        (λ p. absurd (present refl (store.get_missing w key (parsed_missing o p)))) h

  -- Under the same conditions: if `Acquire` returns false with no error, then the lock object is as
  -- it was, and it held, when the call began, a lease that was not over or whose expiry does not
  -- parse.
  pub acquire_refused :
      (w : W)
      → (perform bucket (acquire l key ttl) w).0 ≡ ok false
      → (content (perform bucket (acquire l key ttl) w).1 key ≡ content w key) × HeldAt w (clock w)
  unfolding acquire trying
  acquire_refused w = rw (perform-bind bucket trying (after_create l key ttl) w) (
      created-Refuses (perform bucket trying w).0 w (perform bucket trying w).1 (λ h. (refused h).0)
        (λ h. present h) later)
    where
      refused :
          (perform bucket trying w).0 ≡ ok false
          → (content (perform bucket trying w).1 key ≡ content w key) × (content w key ≢ none)
      refused = create_refused bucket content clock store clocked l key ttl w

      present :
          (perform bucket trying w).0 ≡ ok false → content (perform bucket trying w).1 key ≢ none
      present h p = (refused h).1 (sym (refused h).0 ∙ p)

      later : clock w ≤ clock (perform bucket trying w).1
      later = clock-create bucket content clock store clocked l key ttl w
