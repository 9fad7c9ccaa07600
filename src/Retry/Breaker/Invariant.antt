-- ===== src/Retry/Breaker/Invariant.antt =====
-- What holds of a breaker between two calls, whatever the calls and the clock.
use cloud_comp_project.Base.{
  ℕ, suc, ◌+◌, ◌≤◌, ◌<◌, ◌≡◌, ◌≢◌, pos, pos_part, max_int64, List, [], ◌∷◌, length, arith,
}
use cloud_comp_project.Retry.Breaker.{
  circuit_closed, CircuitBreaker, CircuitBreakerConfig, new_circuit_breaker, allow, record_success,
  record_failure,
}

-- Between calls a closed circuit has seen fewer failures in a row than the threshold, and one that
-- is open or half-open at least that many.
pub record IsValid (cb : CircuitBreaker) : Type 0 where
  pub counted : cb.consecutive_failures ≡ pos (pos_part cb.consecutive_failures)
  pub limited : cb.failure_threshold ≡ pos (pos_part cb.failure_threshold)
  pub threshold_pos : 0 < pos_part cb.failure_threshold
  pub closed_below :
      cb.state ≡ circuit_closed → pos_part cb.consecutive_failures < pos_part cb.failure_threshold
  pub tripped_above :
      cb.state ≢ circuit_closed → pos_part cb.failure_threshold ≤ pos_part cb.consecutive_failures

-- A call of a method, with the time at which it is made.
pub data Call : Type 0 where
  allowing : ℕ → Call
  succeeding : Call
  failing : ℕ → Call

unfoldable pub step : CircuitBreaker → Call → CircuitBreaker
unfolding allow record_success record_failure
step cb (allowing now) = (allow now cb).1
step cb succeeding = record_success cb
step cb (failing now) = record_failure now cb

unfoldable pub run : CircuitBreaker → List Call → CircuitBreaker
unfolding step
run cb [] = cb
run cb (c ∷ cs) = run (step cb c) cs

pub record_failure-IsValid :
    (now : ℕ) (cb : CircuitBreaker)
    → IsValid cb
    → pos_part cb.consecutive_failures < max_int64
    → IsValid (record_failure now cb)
unfolding record_failure
record_failure-IsValid now cb v room = ground arith

pub allow-IsValid : (now : ℕ) (cb : CircuitBreaker) → IsValid cb → IsValid (allow now cb).1
unfolding allow
allow-IsValid now cb v = ground arith

record_success-IsValid : (cb : CircuitBreaker) → IsValid cb → IsValid (record_success cb)
unfolding record_success
record_success-IsValid cb v = ground arith

failures_step :
    (cb : CircuitBreaker) (c : Call)
    → IsValid cb
    → pos_part cb.consecutive_failures < max_int64
    → pos_part (step cb c).consecutive_failures ≤ suc (pos_part cb.consecutive_failures)
unfolding step
failures_step cb (allowing now) v room = ground arith
failures_step cb succeeding v room = ground arith
failures_step cb (failing now) v room = ground arith

step-IsValid :
    (cb : CircuitBreaker) (c : Call)
    → IsValid cb
    → pos_part cb.consecutive_failures < max_int64
    → IsValid (step cb c)
unfolding step
step-IsValid cb (allowing now) v room = allow-IsValid now cb v
step-IsValid cb succeeding v room = record_success-IsValid cb v
step-IsValid cb (failing now) v room = record_failure-IsValid now cb v room

-- From a valid breaker every list of calls, too short to overflow the failure count, leads to a
-- valid breaker: it is closed exactly while the failures in a row are below the threshold.
pub run-IsValid :
    (cb : CircuitBreaker) (cs : List Call)
    → IsValid cb
    → pos_part cb.consecutive_failures + length cs ≤ max_int64
    → IsValid (run cb cs)
unfolding run
run-IsValid cb [] v room = v
run-IsValid cb (c ∷ cs) v room =
    run-IsValid (step cb c) cs (step-IsValid cb c v (omega arith))
      (omega (arith, failures_step cb c v (omega arith)))

-- A new breaker is valid, whatever the configuration.
pub new_circuit_breaker-IsValid : (cfg : CircuitBreakerConfig) → IsValid (new_circuit_breaker cfg)
unfolding new_circuit_breaker
new_circuit_breaker-IsValid cfg = ground arith
