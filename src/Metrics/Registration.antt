-- ===== src/Metrics/Registration.antt =====
-- state-sync-engine/internal/metrics/metrics.go: `New`, which registers the metrics with Prometheus.
pub mod Once
use cloud_comp_project.Base.{ℕ, Bool, true, false, Option, none, some, List, [], ◌∷◌, Text, codes}

-- What is measured: the buckets of a histogram are those given, or `prometheus.DefBuckets`.
pub data Kind : Type 0 where
  gauge counter : Kind
  histogram : List ℕ → Kind
  default_histogram : Kind

-- `prometheus.GaugeOpts`, `CounterOpts` and `HistogramOpts`
pub record Opts : Type 0 where
  pub kind : Kind
  pub name : Text
  pub help : Text

-- `promauto.NewGauge`, `NewCounter` and `NewHistogram` with the default registry; `none` is a panic.
pub record Registry (W : Type 0) : Type 0 where
  pub register : Opts → W → Option W

abbrev opts : Kind → Text → Text → Opts
opts kind name help = record { kind = kind; name = name; help = help }

-- the metrics of `New`, in order
unfoldable pub all_metrics : List Opts
unfolding codes
all_metrics =
    opts gauge (codes "state_sync_replication_lag_seconds")
      (codes "Current replication lag in seconds.")
    ∷ opts counter (codes "state_sync_events_processed_total")
        (codes "Total change events processed.")
    ∷ opts counter (codes "state_sync_events_failed_total") (codes "Failed replication attempts.")
    ∷ opts (histogram (1 ∷ 5 ∷ 10 ∷ 25 ∷ 50 ∷ 100 ∷ 250 ∷ 500 ∷ [])) (codes "state_sync_batch_size")
        (codes "Number of events per batch.")
    ∷ opts default_histogram (codes "state_sync_flush_duration_seconds")
        (codes "Time to flush batch to cloud.")
    ∷ opts gauge (codes "state_sync_db_connections_active") (codes "Active database connections.")
    ∷ opts counter (codes "state_sync_db_connection_errors_total")
        (codes "Connection failure count.")
    ∷ opts gauge (codes "state_sync_active_node") (codes "Current active node (0=local, 1=cloud).")
    ∷ opts counter (codes "state_sync_failover_events_total") (codes "Number of failover events.")
    ∷ opts counter (codes "state_sync_split_brain_events_total")
        (codes "Split-brain condition detections.")
    ∷ opts gauge (codes "state_sync_lock_held")
        (codes "Whether this instance holds the lock (0/1).")
    ∷ opts default_histogram (codes "state_sync_lock_acquire_duration_seconds")
        (codes "Time to acquire lock.")
    ∷ []

module _ {W : Type 0} (registry : Registry W) where
  pub register_all : List Opts → W → Option W
  register_all [] w = some w
  register_all (o ∷ os) w = elim (registry.register o w) [
    | none ↦ none
    | some w' ↦ register_all os w'
  ]

  -- `New`
  unfoldable pub new_metrics : W → Option W
  unfolding register_all all_metrics
  new_metrics w = register_all all_metrics w
