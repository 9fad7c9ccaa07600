-- ===== src/Lock/Gcs.antt =====
-- state-sync-engine/internal/lock/gcslock.go: the methods of `GCSLock` as programs over a bucket.
pub mod Exclusion
pub mod Denial
pub mod Holder
use cloud_comp_project.Base.{
  ℕ, Bool, true, false, ℤ, Option, none, some, Text, text_eq, not, ltb, ◌==◌, time_add,
  if◌then◌else◌,
}
use cloud_comp_project.Interfaces.{Result, ok, err, DistributedLock}
use cloud_comp_project.Lock.Bucket.{
  format_rfc3339, parse_rfc3339, LockMetadata, encoded, malformed, WriteOutcome, stored,
  write_failed, close_status, close_failed, ReadOutcome, found, object_not_exist, reader_failed,
  read_failed, DeleteOutcome, deleted, nothing_to_delete, delete_failed, Program, return, ask_now,
  write, read, delete, ◌>>=◌, Bucket, perform,
}

-- The errors of `readMeta`; the first is `storage.ErrObjectNotExist`.
pub data MetaError (E : Type 0) : Type 0 where
  meta_not_exist : MetaError E
  opening_reader : E → MetaError E
  reading_lock_data : E → MetaError E
  parsing_lock_metadata : Text → MetaError E

-- The errors of the methods; the first two are `ErrNotLockHolder` and `ErrLockNotFound`.
pub data LockError (E : Type 0) : Type 0 where
  err_not_lock_holder err_lock_not_found : LockError E
  reading_existing_lock reading_lock_for_renewal : MetaError E → LockError E
  reading_lock_for_release reading_lock_holder : MetaError E → LockError E
  deleting_expired_lock deleting_lock_object renewing_lock : E → LockError E
  writing_lock_object closing_lock_writer : E → LockError E

pub record GcsLock : Type 0 where
  pub node_id : Text

-- the metadata that `tryCreate` writes at the time `now`
abbrev pub new_meta : GcsLock → ℤ → ℕ → LockMetadata
new_meta l ttl now = record {
  holder = l.node_id;
  acquired = format_rfc3339 now;
  expires_at = format_rfc3339 (time_add now ttl);
}

-- the metadata that `Renew` writes in the place of `meta`
abbrev pub renewed_meta : GcsLock → ℤ → LockMetadata → ℕ → LockMetadata
renewed_meta l ttl meta now = record {
  holder = l.node_id;
  acquired = meta.acquired;
  expires_at = format_rfc3339 (time_add now ttl);
}

module _ {E : Type 0} where
  pub created : WriteOutcome E → Result (LockError E) Bool
  created stored = ok true
  created (write_failed e) = err (writing_lock_object e)
  created (close_status status e) = if status == 412 then ok false else err (closing_lock_writer e)
  created (close_failed e) = err (closing_lock_writer e)

  -- `tryCreate`
  pub try_create : GcsLock → Text → ℤ → Program E (Result (LockError E) Bool)
  unfolding created
  try_create l key ttl =
      ask_now λ now. write true key (encoded (new_meta l ttl now)) λ o. return (created o)

  pub parsed : ReadOutcome E → Result (MetaError E) LockMetadata
  parsed (found (encoded meta)) = ok meta
  parsed (found (malformed s)) = err (parsing_lock_metadata s)
  parsed object_not_exist = err meta_not_exist
  parsed (reader_failed e) = err (opening_reader e)
  parsed (read_failed e) = err (reading_lock_data e)

  -- `readMeta`
  pub read_meta : Text → Program E (Result (MetaError E) LockMetadata)
  unfolding parsed
  read_meta key = read key λ o. return (parsed o)

  pub written : WriteOutcome E → Option E
  written stored = none
  written (write_failed e) = some e
  written (close_status status e) = some e
  written (close_failed e) = some e

  -- `writeMeta`
  pub write_meta : Text → LockMetadata → Program E (Option E)
  unfolding written
  write_meta key meta = write false key (encoded meta) λ o. return (written o)

  pub after_expiry : GcsLock → Text → ℤ → DeleteOutcome E → Program E (Result (LockError E) Bool)
  unfolding try_create
  after_expiry l key ttl deleted = try_create l key ttl
  after_expiry l key ttl nothing_to_delete = try_create l key ttl
  after_expiry l key ttl (delete_failed e) = return (err (deleting_expired_lock e))

  -- the branches on `parseErr != nil || l.now().Before(expiresAt)`
  pub unless_held : GcsLock → Text → ℤ → Bool → Program E (Result (LockError E) Bool)
  unfolding after_expiry
  unless_held l key ttl true = return (ok false)
  unless_held l key ttl false = delete key (after_expiry l key ttl)

  -- the test itself, for what `time.Parse` gives
  pub acquire_from : GcsLock → Text → ℤ → Option ℕ → Program E (Result (LockError E) Bool)
  unfolding unless_held
  acquire_from l key ttl none = unless_held l key ttl true
  acquire_from l key ttl (some expires_at) =
      ask_now λ now. unless_held l key ttl (ltb now expires_at)

  pub acquire_existing :
      GcsLock → Text → ℤ → Result (MetaError E) LockMetadata → Program E (Result (LockError E) Bool)
  unfolding acquire_from try_create
  acquire_existing l key ttl (err meta_not_exist) = try_create l key ttl
  acquire_existing l key ttl (err e) = return (err (reading_existing_lock e))
  acquire_existing l key ttl (ok meta) = acquire_from l key ttl (parse_rfc3339 meta.expires_at)

  pub after_create :
      GcsLock → Text → ℤ → Result (LockError E) Bool → Program E (Result (LockError E) Bool)
  unfolding acquire_existing read_meta ◌>>=◌
  after_create l key ttl (err e) = return (err e)
  after_create l key ttl (ok true) = return (ok true)
  after_create l key ttl (ok false) = do meta ← read_meta key; acquire_existing l key ttl meta

  -- `Acquire`
  unfoldable pub acquire : GcsLock → Text → ℤ → Program E (Result (LockError E) Bool)
  unfolding after_create try_create ◌>>=◌
  acquire l key ttl = do acquired ← try_create l key ttl; after_create l key ttl acquired

  pub renewal : Option E → Option (LockError E)
  renewal none = none
  renewal (some e) = some (renewing_lock e)

  -- the branches on `meta.Holder != l.nodeID`
  pub renew_unless : GcsLock → Text → ℤ → LockMetadata → Bool → Program E (Option (LockError E))
  unfolding renewal write_meta ◌>>=◌
  renew_unless l key ttl meta true = return (some err_not_lock_holder)
  renew_unless l key ttl meta false =
      ask_now λ now. do e ← write_meta key (renewed_meta l ttl meta now); return (renewal e)

  pub renew_read :
      GcsLock → Text → ℤ → Result (MetaError E) LockMetadata → Program E (Option (LockError E))
  unfolding renew_unless
  renew_read l key ttl (err meta_not_exist) = return (some err_lock_not_found)
  renew_read l key ttl (err e) = return (some (reading_lock_for_renewal e))
  renew_read l key ttl (ok meta) = renew_unless l key ttl meta (not (text_eq meta.holder l.node_id))

  -- `Renew`
  unfoldable pub renew : GcsLock → Text → ℤ → Program E (Option (LockError E))
  unfolding renew_read read_meta ◌>>=◌
  renew l key ttl = do meta ← read_meta key; renew_read l key ttl meta

  pub released : DeleteOutcome E → Option (LockError E)
  released deleted = none
  released nothing_to_delete = none
  released (delete_failed e) = some (deleting_lock_object e)

  -- the branches on `meta.Holder != l.nodeID`
  pub release_unless : Text → Bool → Program E (Option (LockError E))
  unfolding released
  release_unless key true = return (some err_not_lock_holder)
  release_unless key false = delete key (λ o. return (released o))

  pub release_read :
      GcsLock → Text → Result (MetaError E) LockMetadata → Program E (Option (LockError E))
  unfolding release_unless
  release_read l key (err meta_not_exist) = return none
  release_read l key (err e) = return (some (reading_lock_for_release e))
  release_read l key (ok meta) = release_unless key (not (text_eq meta.holder l.node_id))

  -- `Release`
  unfoldable pub release : GcsLock → Text → Program E (Option (LockError E))
  unfolding release_read read_meta ◌>>=◌
  release l key = do meta ← read_meta key; release_read l key meta

  pub holder_of : Result (MetaError E) LockMetadata → Result (LockError E) Text
  holder_of (err meta_not_exist) = err err_lock_not_found
  holder_of (err e) = err (reading_lock_holder e)
  holder_of (ok meta) = ok meta.holder

  -- `GetHolder`
  unfoldable pub get_holder : Text → Program E (Result (LockError E) Text)
  unfolding holder_of read_meta ◌>>=◌
  get_holder key = do meta ← read_meta key; return (holder_of meta)

-- `GCSLock` as the interface that the failover manager uses.
unfoldable pub gcs_lock : {W E : Type 0} → Bucket W E → GcsLock → DistributedLock W (LockError E)
unfolding acquire renew release get_holder perform
gcs_lock bucket l = record {
  acquire = λ key ttl. perform bucket (acquire l key ttl);
  renew = λ key ttl. perform bucket (renew l key ttl);
  release = λ key. perform bucket (release l key);
  get_holder = λ key. perform bucket (get_holder key);
}
