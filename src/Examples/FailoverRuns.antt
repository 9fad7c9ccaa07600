-- ===== src/Examples/FailoverRuns.antt =====
-- Runs of the failover manager in a world with one database and one lock holder.
use cloud_comp_project.Base.{◌≡◌, refl, inl, true, false, none, [], ◌∷◌, Text, arith, text_eq}
use cloud_comp_project.Interfaces.{DbConfig, DatabaseState, read_only, read_write, ok}
use cloud_comp_project.State.{node_cloud}
use cloud_comp_project.Config.{to_db_config}
use cloud_comp_project.Lock.Bucket.{Bucket, stored, object_not_exist, nothing_to_delete}
use cloud_comp_project.Lock.Gcs.{LockError, GcsLock}
use cloud_comp_project.Failover.{
  Manager, Surroundings, new_manager, check, run, check_holder, handle, handle_local_active,
  recover_local, detect_split_brain, resolve_split_brain,
}
use cloud_comp_project.Failover.Safety.{HasModes, foreign_holder_read_only}
use cloud_comp_project.Failover.Enabling.{writable_needs_lock, MayEnable}
use cloud_comp_project.Failover.Recovery.{IsQuiet, with_gcs, missing_lock_never_recovers}
use cloud_comp_project.Examples.EngineRuns.{config}

record Site : Type 0 where
  pub holder : Text
  pub local_mode : DatabaseState

abbrev site_env : Surroundings Site (LockError (Unit {0}))
site_env = record {
  lock = record {
    acquire = λ key ttl w. (ok false, w);
    renew = λ key ttl w. (none, w);
    release = λ key w. (none, record w { holder = [] });
    get_holder = λ key w. (ok w.holder, w);
  };
  coordinator = record {
    set_read_only = λ db w. (none, record w { local_mode = read_only });
    set_read_write = λ db w. (none, record w { local_mode = read_write });
    get_state = λ db w. (ok w.local_mode, w);
  };
  publisher = record { publish = λ batch w. (none, w); health_check = λ w. (none, w) };
  now = λ w. 5;
  has_metrics = true;
  send = λ r w. w;
}

abbrev site_mode : DbConfig → Site → DatabaseState
site_mode db w = w.local_mode

site_env-HasModes : HasModes site_env site_mode
site_env-HasModes = record {
  state_read = λ db w s h. ground arith;
  state_keeps = λ db w. refl;
  read_only_left = λ db w. inl refl;
  holder_keeps = λ key db w. refl;
  send_keeps = λ r db w. refl;
}

abbrev manager : Manager
manager = new_manager config (1 ∷ [])

abbrev cloud_manager : Manager
cloud_manager = record manager { active_node = node_cloud }

abbrev cloud_leads : Site
cloud_leads = record { holder = 2 ∷ []; local_mode = read_write }

abbrev local_leads : Site
local_leads = record { holder = 1 ∷ []; local_mode = read_only }

foreign_holder_read_only_example : (check site_env manager cloud_leads).1.local_mode ≡ read_only
unfolding new_manager
foreign_holder_read_only_example =
    foreign_holder_read_only site_env site_mode site_env-HasModes (2 ∷ []) manager cloud_leads
      (λ w. (refl, (w.local_mode, refl))) refl (λ p. cc) (λ p. ground arith)

recovers : (check site_env cloud_manager local_leads).1.local_mode ≡ read_write
unfolding check check_holder handle handle_local_active recover_local detect_split_brain
    resolve_split_brain new_manager text_eq
recovers = refl

writable_needs_lock_example :
    MayEnable site_env site_mode site_env-HasModes (ok (1 ∷ [])) cloud_manager
unfolding new_manager
writable_needs_lock_example =
    writable_needs_lock site_env site_mode site_env-HasModes cloud_manager local_leads refl recovers

abbrev empty_bucket : Bucket Site (Unit {0})
empty_bucket = record {
  now = λ w. (5, w);
  put = λ c key b w. (stored, w);
  get = λ key w. (object_not_exist, w);
  remove = λ key w. (nothing_to_delete, w);
}

abbrev node : GcsLock
node = record { node_id = 1 ∷ [] }

quiet : IsQuiet site_env empty_bucket node site_mode (λ w. w)
quiet = record { wait_keeps = λ db w. refl; get_keeps = λ key db w. refl }

missing_lock_never_recovers_example :
    let r =
      run
        (with_gcs site_env empty_bucket node site_mode (λ w. w))
        (λ w. w)
        (tt ∷ tt ∷ [])
        cloud_manager
        local_leads in
    (r.0 ≡ cloud_manager) × (r.1.local_mode ≡ read_only)
missing_lock_never_recovers_example =
    missing_lock_never_recovers site_env empty_bucket node site_mode (λ w. w) (tt ∷ tt ∷ [])
      cloud_manager local_leads (to_db_config config.local_database) quiet (λ u. refl)
