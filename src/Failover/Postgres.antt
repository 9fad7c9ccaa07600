-- ===== src/Failover/Postgres.antt =====
-- The manager with the coordinator for PostgreSQL: what the manager's theorems assume of a
-- coordinator is what the coordinator's theorems give.
use cloud_comp_project.Base.{ℕ, ◌≡◌, Bool, Text}
use cloud_comp_project.Interfaces.{DbConfig, DatabaseState, DistributedLock, ReplicationPublisher}
use cloud_comp_project.Metrics.{Report}
use cloud_comp_project.Coordinator.{Sessions, CoordinatorError, pg_coordinator}
use cloud_comp_project.Coordinator.Transitions.{IsPostgres}
use cloud_comp_project.Coordinator.Effects.{set_read_only_leaves}
use cloud_comp_project.Coordinator.Reading.{get_state_reads, get_state_keeps}
use cloud_comp_project.Failover.{Surroundings}
use cloud_comp_project.Failover.Safety.{HasModes}

module _ {W C E : Type 0} (pg : Sessions W C E) (lock : DistributedLock W (CoordinatorError E))
    (publisher : ReplicationPublisher W (CoordinatorError E)) (now : W → ℕ) (has_metrics : Bool)
    (send : Report → W → W) where
  -- The manager's surroundings with this coordinator.
  abbrev pub with_postgres : Surroundings W (CoordinatorError E)
  with_postgres = record {
    lock = lock;
    coordinator = pg_coordinator pg;
    publisher = publisher;
    now = now;
    has_metrics = has_metrics;
    send = send;
  }

  -- If the lock and the metrics leave the databases alone, then the coordinator on a PostgreSQL
  -- server meets all that the manager's safety theorems assume of their surroundings.
  pub pg_coordinator-HasModes :
      (mode : DbConfig → W → DatabaseState) (session : C → W → DatabaseState)
      → IsPostgres pg mode session
      → ((key : Text) (db : DbConfig) (w : W) → mode db (lock.get_holder key w).1 ≡ mode db w)
      → ((r : Report) (db : DbConfig) (w : W) → mode db (send r w) ≡ mode db w)
      → HasModes with_postgres mode
  unfolding pg_coordinator
  pg_coordinator-HasModes mode session postgres holder_keeps send_keeps = record {
    state_read = get_state_reads pg mode session postgres;
    state_keeps = get_state_keeps pg mode session postgres;
    read_only_left = set_read_only_leaves pg mode session postgres;
    holder_keeps = holder_keeps;
    send_keeps = send_keeps;
  }
