-- ===== src/Failover/Recovery.antt =====
-- Recovery of the local node: by its own lock object, and after the object is gone.
use cloud_comp_project.Base.{◌≡◌, refl, sym, subst, ◌∙◌, List, [], ◌∷◌, Text}
use cloud_comp_project.Interfaces.{DbConfig, DatabaseState}
use cloud_comp_project.Lock.Bucket.{Bucket, object_not_exist, perform}
use cloud_comp_project.Lock.Gcs.{LockError, GcsLock, gcs_lock, get_holder}
use cloud_comp_project.Failover.{Manager, Surroundings, after_holder, check, run}

module _ {W E : Type 0} (env : Surroundings W (LockError E)) (bucket : Bucket W E) (l : GcsLock)
    (mode : DbConfig → W → DatabaseState) (wait : W → W) where
  -- The manager's surroundings with the lock of lock/gcslock.go.
  abbrev pub with_gcs : Surroundings W (LockError E)
  with_gcs = record env { lock = gcs_lock bucket l }

  -- Neither the wait for a tick nor reading the lock object changes the mode of a database.
  pub record IsQuiet : Type 0 where
    pub wait_keeps : (db : DbConfig) (w : W) → mode db (wait w) ≡ mode db w
    pub get_keeps : (key : Text) (db : DbConfig) (w : W) → mode db (bucket.get key w).1 ≡ mode db w

  check_missing :
      (m : Manager) (w : W)
      → (bucket.get m.cfg.distributed_lock.lock_key w).0 ≡ object_not_exist
      → check with_gcs m w ≡ (m, (bucket.get m.cfg.distributed_lock.lock_key w).1)
  unfolding check after_holder gcs_lock get_holder perform
  check_missing m w h = rw h

  -- While the lock object does not exist, as after the cloud node has released the lock, a manager
  -- that uses the bucket's lock stays as it is however often it checks, and the modes of the
  -- databases stay too: a local database that the failover has made read-only is not made writable
  -- again. `GetHolder` reports a missing object as an error, on which `check` returns at once.
  pub missing_lock_never_recovers :
      (ticks : List (Unit {0})) (m : Manager) (w : W) (db : DbConfig)
      → IsQuiet
      → ((u : W) → (bucket.get m.cfg.distributed_lock.lock_key u).0 ≡ object_not_exist)
      → ((run with_gcs wait ticks m w).0 ≡ m)
        × (mode db (run with_gcs wait ticks m w).1 ≡ mode db w)
  unfolding run
  missing_lock_never_recovers [] m w db quiet missing = (refl, refl)
  missing_lock_never_recovers (_ ∷ ticks) m w db quiet missing =
      let w1 = wait w in
      let (same, kept) =
        missing_lock_never_recovers ticks m (bucket.get m.cfg.distributed_lock.lock_key w1).1 db
          quiet missing in
      subst
        (λ (p : Manager × W).
          ((run with_gcs wait ticks p.0 p.1).0 ≡ m)
          × (mode db (run with_gcs wait ticks p.0 p.1).1 ≡ mode db w))
        (sym (check_missing m w1 (missing w1)))
        (same, kept ∙ quiet.get_keeps m.cfg.distributed_lock.lock_key db w1 ∙ quiet.wait_keeps db w)
