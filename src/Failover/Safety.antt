-- ===== src/Failover/Safety.antt =====
-- One writer: while another node holds the lock the local database is not writable.
use cloud_comp_project.Base.{
  ◌≡◌, ◌≢◌, ◌⊎◌, inl, inr, refl, ◌∙◌, Bool, true, false, none, [], ◌∷◌, Text, text_eq, text_eq_iff,
  is_empty, if◌then◌else◌, arith,
}
use cloud_comp_project.Interfaces.{DbConfig, DatabaseState, read_only, read_write, Result, ok, err}
use cloud_comp_project.Config.{to_db_config}
use cloud_comp_project.Metrics.{Report, report}
use cloud_comp_project.Failover.{
  Manager, Surroundings, is_cloud, tell, fail_over, handle_cloud_active, resolve_split_brain,
  detect_split_brain, handle, check_holder, after_holder, check,
}

-- `mode db w` is whether `db` accepts writes. A state that is read is the mode; a change to
-- read-only leaves the database read-only, or it reports an error and leaves the mode as it was; the
-- other calls leave the mode alone.
pub record HasModes {W E : Type 0} (env : Surroundings W E) (mode : DbConfig → W → DatabaseState)
    : Type 0 where
  pub state_read :
      (db : DbConfig) (w : W) (s : DatabaseState)
      → (env.coordinator.get_state db w).0 ≡ ok s
      → mode db w ≡ s
  pub state_keeps : (db : DbConfig) (w : W) → mode db (env.coordinator.get_state db w).1 ≡ mode db w
  pub read_only_left :
      (db : DbConfig) (w : W)
      → (mode db (env.coordinator.set_read_only db w).1 ≡ read_only)
        ⊎ (((env.coordinator.set_read_only db w).0 ≢ none)
            × (mode db (env.coordinator.set_read_only db w).1 ≡ mode db w))
  pub holder_keeps :
      (key : Text) (db : DbConfig) (w : W) → mode db (env.lock.get_holder key w).1 ≡ mode db w
  pub send_keeps : (r : Report) (db : DbConfig) (w : W) → mode db (env.send r w) ≡ mode db w

not_empty : (s : Text) → s ≢ [] → is_empty s ≡ false
not_empty [] h = absurd (h refl)
not_empty (c ∷ s) h = refl

not_same : (s t : Text) → s ≢ t → text_eq s t ≡ false
not_same s t h = ground (arith, text_eq_iff s t)

abbrev pub local_db : Manager → DbConfig
local_db m = to_db_config m.cfg.local_database

module _ {W E : Type 0} (env : Surroundings W E) (mode : DbConfig → W → DatabaseState)
    (modes : HasModes env mode) where
  pub read_only_safe :
      (db : DbConfig) (w : W)
      → mode db w ≡ read_only
      → mode db (env.coordinator.set_read_only db w).1 ≡ read_only
  read_only_safe db w h = elim (modes.read_only_left db w) [
    | inl done ↦ done
    | inr (failed, same) ↦ same ∙ h
  ]

  pub tell_keeps : (r : Report) (db : DbConfig) (w : W) → mode db (tell env r w) ≡ mode db w
  unfolding tell
  tell_keeps r db w = sends env.has_metrics
    where
      sends : (b : Bool) → mode db (report b env.send r w) ≡ mode db w
      sends true = modes.send_keeps r db w
      sends false = refl

  -- The coordinator reaches the database: it reads the state, and a change to read-only takes
  -- place, whatever the call then reports.
  abbrev pub Reaches : DbConfig → Type 0
  Reaches db =
      (w : W)
      → (mode db (env.coordinator.set_read_only db w).1 ≡ read_only)
        × ((s : DatabaseState) × ((env.coordinator.get_state db w).0 ≡ ok s))

  resolved :
      (r : Result E DatabaseState) (m : Manager) (w : W)
      → Reaches (local_db m)
      → ((s : DatabaseState) × (r ≡ ok s) × (mode (local_db m) w ≡ s))
      → mode (local_db m) (resolve_split_brain env true r m w) ≡ read_only
  unfolding resolve_split_brain
  resolved (err x) m w a (s, p, q) = absurd (cc)
  resolved (ok read_only) m w a (s, p, q) = cc
  resolved (ok read_write) m w a h = (a _).0

  detected :
      (holder : Text) (m : Manager) (w : W)
      → Reaches (local_db m)
      → is_empty holder ≡ false
      → text_eq holder m.node_id ≡ false
      → mode (local_db m) (detect_split_brain env holder m w) ≡ read_only
  unfolding detect_split_brain
  detected holder m w a some_holder foreign =
      let (s, e) = (a w).1 in
      rw (some_holder, foreign)
        (resolved (env.coordinator.get_state (local_db m) w).0 m
          (env.coordinator.get_state (local_db m) w).1 a
          (s, e, modes.state_keeps (local_db m) w ∙ modes.state_read (local_db m) w s e))

  foreign_checked :
      (holder : Text) (m : Manager) (w : W)
      → Reaches (local_db m)
      → is_empty holder ≡ false
      → text_eq holder m.node_id ≡ false
      → mode (local_db m) (check_holder env holder m w).1 ≡ read_only
  unfolding check_holder handle handle_cloud_active
  foreign_checked holder m w a some_holder foreign =
      rw (some_holder, foreign) (by_node (is_cloud m.active_node))
    where
      by_node :
          (b : Bool)
          → let (m', w') = if b then (m, w) else fail_over env m w in
            mode (local_db m) (detect_split_brain env holder m' w') ≡ read_only
      by_node true = detected holder m w a some_holder foreign
      by_node false =
          unfold fail_over in
          detected holder (fail_over env m w).0 (fail_over env m w).1 a some_holder foreign

  -- If a check of the manager finds that another node holds the lock, and the coordinator
  -- reaches the local database, then the local database is read-only when the check ends,
  -- whatever its mode was and whichever node the manager took to be the active one.
  pub foreign_holder_read_only :
      (holder : Text) (m : Manager) (w : W)
      → Reaches (local_db m)
      → (env.lock.get_holder m.cfg.distributed_lock.lock_key w).0 ≡ ok holder
      → holder ≢ []
      → holder ≢ m.node_id
      → mode (local_db m) (check env m w).1 ≡ read_only
  unfolding check after_holder
  foreign_holder_read_only holder m w a found some_holder foreign = rw found (
      foreign_checked holder m (env.lock.get_holder m.cfg.distributed_lock.lock_key w).1 a
        (not_empty holder some_holder) (not_same holder m.node_id foreign))
