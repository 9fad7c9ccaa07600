-- ===== src/Metrics.antt =====
-- state-sync-engine/internal/metrics/metrics.go: what the components report. Prometheus is a
-- parameter: a report is a change of the world.
pub mod Registration
use cloud_comp_project.Base.{ℕ, ℤ, Bool, true, false}

-- A method call on a metric that the components use; durations are in nanoseconds.
pub data Report : Type 0 where
  replication_lag flush_duration : ℤ → Report
  events_processed events_failed batch_size : ℕ → Report
  active_node lock_held : ℕ → Report
  db_connection_errors failover_events split_brain_events : Report

-- `if e.metrics != nil { … }`
abbrev pub report : {W : Type 0} → Bool → (Report → W → W) → Report → W → W
report true send r w = send r w
report false send r w = w
