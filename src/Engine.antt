-- ===== src/Engine.antt =====
-- state-sync-engine/internal/engine/engine.go: the replication engine. The engine's mutex guards
-- single steps only; `loop` is the one goroutine that changes the engine. Log lines are left out.
pub mod Loop
pub mod Views
pub mod Publishing
pub mod Rule
pub mod Conservation
pub mod Delivery
pub mod Outage
pub mod Recovery
pub mod Calls
pub mod Position
use cloud_comp_project.Base.{
  ℕ, zero, suc, ◌+◌, ◌*◌, Bool, true, false, not, ◌==◌, ltb, Option, none, some, List, [], ◌∷◌,
  ◌++◌, map, Text, ℤ, pos, lt_ℤ, add_int64, time_sub, length, is_empty, second, minute,
  if◌then◌else◌,
}
use cloud_comp_project.Interfaces.{
  Lsn, ChangeEvent, ReplicationSubscriber, ReplicationPublisher, Result, ok, err,
}
use cloud_comp_project.Retry.Backoff.{BackoffConfig, default_backoff}
use cloud_comp_project.Retry.Loop.{Wake, RetryError, Run, out_of_fuel, returned, retry_do}
use cloud_comp_project.Retry.Breaker.{
  CircuitBreaker, new_circuit_breaker, allow, record_success, record_failure,
}
use cloud_comp_project.Config.{Config, to_db_config}
use cloud_comp_project.State.{ReplicationState, zero_state}
use cloud_comp_project.Metrics.{
  Report, report, replication_lag, flush_duration, events_processed, events_failed, batch_size,
  db_connection_errors,
}

-- What a method is called under: `context.Background()`, which is never cancelled, or another.
pub data Context : Type 0 where
  background run_context shutdown_context : Context

-- What the engine works with: its dependencies, the clock, and the waits of the retry loop. The
-- clock is read by `now`; time passes in the other calls. `meets_deadline` says whether the work of
-- `shutdown` that starts then ends within its 30 seconds.
pub record Environment (W E : Type 0) : Type 0 where
  pub subscriber : ReplicationSubscriber W E
  pub publisher : ReplicationPublisher W E
  pub load_state : W → Result E ReplicationState × W
  pub save_state : ReplicationState → W → Option E × W
  pub now : W → ℕ
  pub select : Context → ℕ → W → Wake × W
  pub meets_deadline : W → Bool
  pub has_metrics : Bool
  pub send : Report → W → W

-- `state` is nil until `Run` has loaded it.
pub record Engine : Type 0 where
  pub cfg : Config
  pub state : Option ReplicationState
  pub buffer : List ChangeEvent
  pub cloud_breaker : CircuitBreaker

-- `New`
unfoldable pub new : Config → Engine
unfolding new_circuit_breaker
new cfg = record {
  cfg = cfg;
  state = none;
  buffer = [];
  cloud_breaker =
      new_circuit_breaker (record { failure_threshold = pos 5; retry_interval = pos (5 * minute) });
}

-- The errors of `flush`; the last stands for a retry loop that is cut off, which does not happen.
pub data FlushError (E : Type 0) : Type 0 where
  circuit_breaker_open : FlushError E
  publishing_batch : ℕ → RetryError E → FlushError E
  retry_cut_off : FlushError E

-- The loop over the batch for `maxLSN`, and the one for `latestTimestamp`.
unfoldable pub max_lsn : Lsn → List ChangeEvent → Lsn
max_lsn acc [] = acc
max_lsn acc (ev ∷ evs) = max_lsn (if ltb acc ev.lsn then ev.lsn else acc) evs

unfoldable pub latest_timestamp : ℕ → List ChangeEvent → ℕ
latest_timestamp acc [] = acc
latest_timestamp acc (ev ∷ evs) =
    latest_timestamp (if ltb acc ev.timestamp then ev.timestamp else acc) evs

-- the state after a flush of `batch` at the time `now`
unfoldable pub flushed_state : Config → List ChangeEvent → ℕ → ReplicationState → ReplicationState
unfolding max_lsn latest_timestamp add_int64 time_sub
flushed_state cfg batch now st =
    let latest = latest_timestamp 0 batch in
    record st {
      last_lsn = max_lsn 0 batch;
      last_flush_time = now;
      events_processed = add_int64 st.events_processed (length batch);
      slot_name = cfg.local_database.replication_slot;
      current_lag = if latest == 0 then st.current_lag else time_sub now latest;
    }

-- the state after a failure to publish `n` events
pub failed_state : ℕ → ReplicationState → ReplicationState
unfolding add_int64
failed_state n st = record st { events_failed = add_int64 st.events_failed n }

-- `e.state.F = …` for the state that `e.state` points to. (Before `Run` has set it there is none.)
abbrev pub on_state :
    (ReplicationState → ReplicationState) → Option ReplicationState → Option ReplicationState
on_state f none = none
on_state f (some st) = some (f st)

abbrev pub snapshot : Option ReplicationState → ReplicationState
snapshot none = zero_state
snapshot (some st) = st

-- the backoff and the attempts of a publish
unfoldable pub publish_backoff : BackoffConfig
publish_backoff = record { initial_delay = 1 * second; max_delay = 8 * second; multiplier = 2 }

abbrev pub publish_attempts : ℕ
publish_attempts = 3

module _ {W E : Type 0} (env : Environment W E) where
  -- `if maxLSN > 0 { … Acknowledge … }`; an error is only logged
  pub acknowledge_max : Lsn → W → W
  acknowledge_max lsn w = if ltb 0 lsn then (env.subscriber.acknowledge lsn w).1 else w

  pub report_flush : List ChangeEvent → ℕ → ℤ → W → W
  report_flush batch flush_start lag w =
      let w1 = report env.has_metrics env.send (events_processed (length batch)) w in
      let w2 = report env.has_metrics env.send (batch_size (length batch)) w1 in
      let w3 =
        report env.has_metrics env.send (flush_duration (time_sub (env.now w2) flush_start)) w2 in
      report env.has_metrics env.send (replication_lag lag) w3

  pub report_failure : List ChangeEvent → W → W
  report_failure batch w =
      report env.has_metrics env.send db_connection_errors
        (report env.has_metrics env.send (events_failed (length batch)) w)

  -- what follows a publish; `e` has an empty buffer
  pub after_publish : List ChangeEvent → ℕ → Run W E → Engine → Option (FlushError E) × Engine × W
  unfolding acknowledge_max report_flush report_failure flushed_state failed_state
  after_publish batch flush_start (out_of_fuel w) e = (some retry_cut_off, e, w)
  after_publish batch flush_start (returned (some x) w) e = (
    some (publishing_batch (length batch) x),
    record e {
      cloud_breaker = record_failure (env.now w) e.cloud_breaker;
      buffer = batch ++ e.buffer;
      state = on_state (failed_state (length batch)) e.state;
    },
    report_failure batch w,
  )
  after_publish batch flush_start (returned none w) e =
      let w1 = acknowledge_max (max_lsn 0 batch) w in
      let st = on_state (flushed_state e.cfg batch (env.now w1)) e.state in
      let w2 = report_flush batch flush_start (snapshot st).current_lag w1 in
      let (_ignored, w3) = env.save_state (snapshot st) w2 in
      (none, record e { cloud_breaker = record_success e.cloud_breaker; state = st }, w3)

  -- the publish, if the breaker allows it; `e` has an empty buffer
  pub after_allow :
      Context → List ChangeEvent → ℕ → Bool → Engine → W → Option (FlushError E) × Engine × W
  unfolding after_publish
  after_allow ctx batch flush_start false e w =
      (some circuit_breaker_open, record e { buffer = batch ++ e.buffer }, w)
  after_allow ctx batch flush_start true e w =
      let run =
        retry_do publish_backoff publish_attempts (some (λ attempt x d w. w)) (env.select ctx)
          (env.publisher.publish batch) publish_attempts w in
      after_publish batch flush_start run e

  pub flush_batch : Context → List ChangeEvent → Engine → W → Option (FlushError E) × Engine × W
  unfolding after_allow
  flush_batch ctx [] e w = (none, e, w)
  flush_batch ctx (ev ∷ evs) e w =
      let batch = ev ∷ evs in
      let (allowed, breaker) = allow (env.now w) e.cloud_breaker in
      after_allow ctx batch (env.now w) allowed (record e { buffer = []; cloud_breaker = breaker })
        w

  -- `flush`
  unfoldable pub flush : Context → Engine → W → Option (FlushError E) × Engine × W
  unfolding flush_batch
  flush ctx e w = flush_batch ctx e.buffer e w
