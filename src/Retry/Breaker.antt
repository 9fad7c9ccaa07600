-- ===== src/Retry/Breaker.antt =====
-- state-sync-engine/internal/retry/circuitbreaker.go. A method that changes the breaker returns the
-- new one; the clock is an argument, `now`. The mutex makes each method one step.
pub mod Invariant
pub mod Cycle
pub mod Probe
use cloud_comp_project.Base.{
  ℕ, Bool, true, false, ℤ, pos, is_pos, pos_part, lt_ℤ, add_int64, time_sub, Text, codes, not,
  minute, ◌*◌, if◌then◌else◌,
}

pub data CircuitState : Type 0 where
  circuit_closed circuit_open circuit_half_open : CircuitState

-- `String`
unfoldable pub state_string : CircuitState → Text
unfolding codes
state_string circuit_closed = codes "closed"
state_string circuit_open = codes "open"
state_string circuit_half_open = codes "half-open"

pub record CircuitBreaker : Type 0 where
  pub state : CircuitState
  pub consecutive_failures : ℤ
  pub failure_threshold : ℤ
  pub retry_interval : ℤ
  pub last_failure_time : ℕ

pub record CircuitBreakerConfig : Type 0 where
  pub failure_threshold : ℤ
  pub retry_interval : ℤ

-- `NewCircuitBreaker`
unfoldable pub new_circuit_breaker : CircuitBreakerConfig → CircuitBreaker
new_circuit_breaker cfg = record {
  state = circuit_closed;
  consecutive_failures = pos 0;
  failure_threshold = if is_pos cfg.failure_threshold then cfg.failure_threshold else pos 5;
  retry_interval = if is_pos cfg.retry_interval then cfg.retry_interval else pos (5 * minute);
  last_failure_time = 0;
}

-- the cases of `Allow`
allow_in : CircuitState → ℕ → CircuitBreaker → Bool × CircuitBreaker
allow_in circuit_closed now cb = (true, cb)
allow_in circuit_open now cb =
    if not (lt_ℤ (time_sub now cb.last_failure_time) cb.retry_interval)
    then (true, record cb { state = circuit_half_open })
    else (false, cb)
allow_in circuit_half_open now cb = (false, cb)

-- `Allow`
unfoldable pub allow : ℕ → CircuitBreaker → Bool × CircuitBreaker
unfolding allow_in
allow now cb = allow_in cb.state now cb

-- `RecordSuccess`
unfoldable pub record_success : CircuitBreaker → CircuitBreaker
record_success cb = record cb { consecutive_failures = pos 0; state = circuit_closed }

-- `RecordFailure`
unfoldable pub record_failure : ℕ → CircuitBreaker → CircuitBreaker
unfolding add_int64
record_failure now cb =
    let n = add_int64 cb.consecutive_failures 1 in
    record cb {
      consecutive_failures = n;
      last_failure_time = now;
      state = if not (lt_ℤ n cb.failure_threshold) then circuit_open else cb.state;
    }
