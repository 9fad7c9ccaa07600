-- ===== src/Lock/Gcs/Holder.antt =====
-- `Renew`, `Release` and `GetHolder` act on the lock of this node alone.
use cloud_comp_project.Base.{
  ℕ, ◌≡◌, ◌⊎◌, inl, inr, refl, ◌∙◌, Bool, true, false, not, ℤ, Option, none, some, Text, arith,
  text_eq, text_eq_iff, time_add,
}
use cloud_comp_project.Interfaces.{Result, ok, err}
use cloud_comp_project.Lock.Bucket.{
  LockMetadata, Body, encoded, DeleteOutcome, deleted, nothing_to_delete, delete_failed, ◌>>=◌,
  WriteOutcome, stored, Bucket, perform, IsConsistent, format_rfc3339,
}
use cloud_comp_project.Lock.Gcs.{
  MetaError, meta_not_exist, GcsLock, renewed_meta, read_meta, parsed, write_meta, written,
  opening_reader, reading_lock_data, parsing_lock_metadata, renew, release, renew_read,
  release_read, renew_unless, release_unless, renewal, released,
}
use cloud_comp_project.Lock.Gcs.Exclusion.{parsed_ok}
use cloud_comp_project.Lock.Gcs.Denial.{parsed_missing}

module _ {E : Type 0} where
  renewal_stored : (o : WriteOutcome E) → renewal (written o) ≡ none → o ≡ stored
  unfolding renewal written
  renewal_stored o h = ground arith

module _ {W E : Type 0} (bucket : Bucket W E) (content : W → Text → Option Body)
    (store : IsConsistent bucket content) (l : GcsLock) (key : Text) where
  -- The object holds metadata that names this node.
  abbrev pub IsHolder : W → LockMetadata → Type 0
  IsHolder w m = (content w key ≡ some (encoded m)) × (m.holder ≡ l.node_id)

  renew_writes :
      (ttl : ℤ) (m : LockMetadata) (other : Bool) (w : W)
      → (perform bucket (renew_unless l key ttl m other) w).0 ≡ none
      → (other ≡ false)
        × (content (perform bucket (renew_unless l key ttl m other) w).1 key
            ≡ some (encoded (renewed_meta l ttl m (bucket.now w).0)))
  unfolding renew_unless write_meta perform ◌>>=◌
  renew_writes ttl m true w h = absurd (cc)
  renew_writes ttl m false w h =
      let (t, w1) = bucket.now w in
      (refl, store.put_stored false w1 key (encoded (renewed_meta l ttl m t)) (renewal_stored _ h))

  same_holder : (m : LockMetadata) → not (text_eq m.holder l.node_id) ≡ false → m.holder ≡ l.node_id
  same_holder m h = (text_eq_iff _ _).0 (ground arith)

  renew_reads :
      (ttl : ℤ) (r : Result (MetaError E) LockMetadata) (w0 w : W)
      → ((m : LockMetadata) → r ≡ ok m → content w0 key ≡ some (encoded m))
      → (perform bucket (renew_read l key ttl r) w).0 ≡ none
      → (m : LockMetadata) × (t : ℕ) × IsHolder w0 m
        × (t ≡ (bucket.now w).0)
        × (content (perform bucket (renew_read l key ttl r) w).1 key
            ≡ some (encoded (renewed_meta l ttl m t)))
  unfolding renew_read
  renew_reads ttl (err meta_not_exist) w0 w c h = absurd (unfold perform in cc)
  renew_reads ttl (err (opening_reader e)) w0 w c h = absurd (unfold perform in cc)
  renew_reads ttl (err (reading_lock_data e)) w0 w c h = absurd (unfold perform in cc)
  renew_reads ttl (err (parsing_lock_metadata s)) w0 w c h = absurd (unfold perform in cc)
  renew_reads ttl (ok m) w0 w c h =
      let (ours, done) = renew_writes ttl m (not (text_eq m.holder l.node_id)) w h in
      (m, (bucket.now w).0, (c m refl, same_holder m ours), refl, done)

  release_deletes :
      (other : Bool) (w : W)
      → (perform bucket (release_unless key other) w).0 ≡ none
      → (other ≡ false) × (content (perform bucket (release_unless key other) w).1 key ≡ none)
  unfolding release_unless perform
  release_deletes true w h = absurd (cc)
  release_deletes false w h = (refl, gone (bucket.remove key w).0 refl h)
    where
      gone :
          (o : DeleteOutcome E)
          → (bucket.remove key w).0 ≡ o
          → released o ≡ none
          → content (bucket.remove key w).1 key ≡ none
      gone deleted e h = store.remove_deleted w key e
      gone nothing_to_delete e h = store.remove_missing w key e
      gone (delete_failed x) e h = absurd (unfold released in cc)

  release_reads :
      (r : Result (MetaError E) LockMetadata) (w0 w : W)
      → ((m : LockMetadata) → r ≡ ok m → content w0 key ≡ some (encoded m))
      → (r ≡ err meta_not_exist → (content w0 key ≡ none) × (content w key ≡ none))
      → (perform bucket (release_read l key r) w).0 ≡ none
      → (content (perform bucket (release_read l key r) w).1 key ≡ none)
        × ((content w0 key ≡ none) ⊎ ((m : LockMetadata) × IsHolder w0 m))
  unfolding release_read
  release_reads (err meta_not_exist) w0 w c gone h =
      unfold perform in ((gone refl).1, inl (gone refl).0)
  release_reads (err (opening_reader e)) w0 w c gone h = absurd (unfold perform in cc)
  release_reads (err (reading_lock_data e)) w0 w c gone h = absurd (unfold perform in cc)
  release_reads (err (parsing_lock_metadata s)) w0 w c gone h = absurd (unfold perform in cc)
  release_reads (ok m) w0 w c gone h =
      let (ours, done) = release_deletes (not (text_eq m.holder l.node_id)) w h in
      (done, inr (m, (c m refl, same_holder m ours)))

  -- In a strongly consistent bucket, when no other node interferes: if `Renew` succeeds, then the
  -- object named this node as the holder, and it now holds the same acquisition time and an expiry
  -- of the time t that the clock shows behind the read, plus the TTL, in whole seconds.
  pub renew-IsHolder :
      (ttl : ℤ) (w : W)
      → (perform bucket (renew l key ttl) w).0 ≡ none
      → (m : LockMetadata) × (t : ℕ) × IsHolder w m
        × (t ≡ (bucket.now (bucket.get key w).1).0)
        × (content (perform bucket (renew l key ttl) w).1 key
            ≡ some (
                encoded (record {
                  holder = l.node_id;
                  acquired = m.acquired;
                  expires_at = format_rfc3339 (time_add t ttl);
                })))
  unfolding renew read_meta perform ◌>>=◌
  renew-IsHolder ttl w =
      let (o, w1) = bucket.get key w in
      renew_reads ttl (parsed o) w w1 (λ m p. store.get_found w key (encoded m) (parsed_ok o m p))

  -- In a strongly consistent bucket, when no other node interferes: if `Release` succeeds, then
  -- there was no lock object or it named this node as the holder, and now there is none.
  pub release-IsHolder :
      (w : W)
      → (perform bucket (release l key) w).0 ≡ none
      → (content (perform bucket (release l key) w).1 key ≡ none)
        × ((content w key ≡ none) ⊎ ((m : LockMetadata) × IsHolder w m))
  unfolding release read_meta perform ◌>>=◌
  release-IsHolder w =
      let (o, w1) = bucket.get key w in
      release_reads (parsed o) w w1 (λ m p. store.get_found w key (encoded m) (parsed_ok o m p))
        (λ p.
          let missing = store.get_missing w key (parsed_missing o p) in
          (missing, store.get_keeps w key key ∙ missing))
