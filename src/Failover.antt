-- ===== src/Failover.antt =====
-- state-sync-engine/internal/failover/failover.go: the failover manager. Its mutex guards single
-- steps only; `Run` is the one goroutine that changes the manager. Log lines are left out.
pub mod Safety
pub mod Enabling
pub mod Recovery
pub mod Postgres
use cloud_comp_project.Base.{
  ℕ, Bool, true, false, not, ◌&&◌, ◌||◌, Option, none, some, List, [], ◌∷◌, Text, text_eq, is_empty,
  if◌then◌else◌,
}
use cloud_comp_project.Interfaces.{
  DatabaseState, read_only, read_write, Result, ok, err, DistributedLock, StateCoordinator,
  ReplicationPublisher,
}
use cloud_comp_project.Config.{Config, to_db_config}
use cloud_comp_project.State.{NodeType, node_local, node_cloud, node_other}
use cloud_comp_project.Metrics.{
  Report, report, active_node, lock_held, failover_events, split_brain_events,
}

pub record Manager : Type 0 where
  pub cfg : Config
  pub node_id : Text
  pub active_node : NodeType
  pub lock_held : Bool
  pub last_failover : ℕ

-- `NewManager`
unfoldable pub new_manager : Config → Text → Manager
new_manager cfg node_id = record {
  cfg = cfg;
  node_id = node_id;
  active_node = node_local;
  lock_held = false;
  last_failover = 0;
}

-- What the manager works with.
pub record Surroundings (W E : Type 0) : Type 0 where
  pub lock : DistributedLock W E
  pub coordinator : StateCoordinator W E
  pub publisher : ReplicationPublisher W E
  pub now : W → ℕ
  pub has_metrics : Bool
  pub send : Report → W → W

abbrev pub is_cloud : NodeType → Bool
is_cloud node_cloud = true
is_cloud _ = false

abbrev pub is_local : NodeType → Bool
is_local node_local = true
is_local _ = false

module _ {W E : Type 0} (env : Surroundings W E) where
  pub tell : Report → W → W
  tell r w = report env.has_metrics env.send r w

  -- the rest of `handleCloudActive` when the active node is not the cloud
  unfoldable pub fail_over : Manager → W → Manager × W
  unfolding tell
  fail_over m w =
      let m1 = record m { active_node = node_cloud; last_failover = env.now w } in
      let w1 = tell failover_events (tell (active_node 1) w) in
      let (_logged, w2) = env.coordinator.set_read_only (to_db_config m.cfg.local_database) w1 in
      (m1, w2)

  -- `handleCloudActive`
  unfoldable pub handle_cloud_active : Manager → W → Manager × W
  handle_cloud_active m w = if is_cloud m.active_node then (m, w) else fail_over m w

  after_release : Option E → Manager → W → Manager × W
  unfolding tell
  after_release (some x) m w = (m, w)
  after_release none m w = (record m { lock_held = false }, tell (lock_held 0) w)

  after_read_write : Option E → Manager → W → Manager × W
  unfolding after_release
  after_read_write (some x) m w = (m, w)
  after_read_write none m w =
      let (x, w') = env.lock.release m.cfg.distributed_lock.lock_key w in after_release x m w'

  -- `recoverLocal`
  unfoldable pub recover_local : Manager → W → Manager × W
  unfolding after_read_write
  recover_local m w =
      let (_logged, w1) = env.publisher.health_check w in
      let (x, w2) = env.coordinator.set_read_write (to_db_config m.cfg.local_database) w1 in
      after_read_write x m w2

  -- `handleLocalActive`
  unfoldable pub handle_local_active : Manager → W → Manager × W
  unfolding tell
  handle_local_active m w =
      if is_local m.active_node
      then (m, w)
      else recover_local (record m { active_node = node_local }) (tell (active_node 0) w)

  -- the branches of `detectSplitBrain` on the state that was read; the lock is held by another node
  -- if `foreign`
  unfoldable pub resolve_split_brain : Bool → Result E DatabaseState → Manager → W → W
  unfolding tell
  resolve_split_brain foreign (err x) m w = w
  resolve_split_brain foreign (ok read_only) m w = w
  resolve_split_brain false (ok read_write) m w = w
  resolve_split_brain true (ok read_write) m w =
      (env.coordinator.set_read_only (to_db_config m.cfg.local_database)
        (tell split_brain_events w)).1

  -- `detectSplitBrain`
  unfoldable pub detect_split_brain : Text → Manager → W → W
  detect_split_brain holder m w =
      if is_empty holder
      then w
      else let (st, w') = env.coordinator.get_state (to_db_config m.cfg.local_database) w in
        resolve_split_brain (not (text_eq holder m.node_id)) st m w'

  -- the branches of `check` on `holder != "" && holder != fm.nodeID` and on
  -- `holder == fm.nodeID || holder == ""`
  unfoldable pub handle : Bool → Bool → Manager → W → Manager × W
  handle true ours m w = handle_cloud_active m w
  handle false true m w = handle_local_active m w
  handle false false m w = (m, w)

  -- `check`, when the lock's holder has been read
  unfoldable pub check_holder : Text → Manager → W → Manager × W
  check_holder holder m w =
      let foreign = not (is_empty holder) && not (text_eq holder m.node_id) in
      let ours = text_eq holder m.node_id || is_empty holder in
      let (m', w') = handle foreign ours m w in (m', detect_split_brain holder m' w')

  unfoldable pub after_holder : Result E Text → Manager → W → Manager × W
  after_holder (err x) m w = (m, w)
  after_holder (ok holder) m w = check_holder holder m w

  -- `check`
  unfoldable pub check : Manager → W → Manager × W
  unfolding after_holder
  check m w =
      let (holder, w') = env.lock.get_holder m.cfg.distributed_lock.lock_key w in
      after_holder holder m w'

  -- `Run`, for a number of ticks before the context ends; `wait` passes the time to a tick
  unfoldable pub run : (W → W) → List (Unit {0}) → Manager → W → Manager × W
  run wait [] m w = (m, w)
  run wait (_ ∷ ticks) m w = let (m', w') = check m (wait w) in run wait ticks m' w'
