-- ===== src/Examples/RetryRuns.antt =====
-- Runs of the retry loop and of the circuit breaker.
use cloud_comp_project.Base.{
  ℕ, ◌+◌, ◌*◌, ◌^◌, ◌≡◌, ◌≤◌, refl, true, false, Option, none, some, [], ◌∷◌, map, pos, arith,
  second, min,
}
use cloud_comp_project.Retry.Backoff.{delay, default_backoff}
use cloud_comp_project.Retry.Backoff.Bounds.{delay_schedule, IsSound-default_backoff}
use cloud_comp_project.Retry.Loop.{Wake, elapsed, failed_after, returned, call_log, retry_do}
use cloud_comp_project.Retry.Loop.Rule.{Returns}
use cloud_comp_project.Retry.Loop.Calls.{IsMetered, CallsMade, retry_do_calls}
use cloud_comp_project.Retry.Breaker.{
  CircuitBreaker, CircuitBreakerConfig, circuit_open, new_circuit_breaker, allow, record_failure,
  record_success,
}
use cloud_comp_project.Retry.Breaker.Invariant.{
  IsValid, failing, allowing, succeeding, run, run-IsValid, new_circuit_breaker-IsValid,
}
use cloud_comp_project.Retry.Breaker.Cycle.{failures_trip, recovery_cycle}

-- 1s, 2s, 4s, …, 60s
default_delays :
    map (delay default_backoff) (0 ∷ 1 ∷ 2 ∷ 5 ∷ 6 ∷ [])
    ≡ 1 * second ∷ 2 * second ∷ 4 * second ∷ 32 * second ∷ 60 * second ∷ []
unfolding delay default_backoff
default_delays = refl

scheduled :
    (delay default_backoff 3
      ≡ min default_backoff.max_delay
          (default_backoff.initial_delay * default_backoff.multiplier ^ 3))
    × (default_backoff.initial_delay ≤ delay default_backoff 3)
    × (delay default_backoff 3 ≤ default_backoff.max_delay)
    × (delay default_backoff 3 ≤ delay default_backoff (3 + 4))
scheduled = delay_schedule default_backoff 3 4 IsSound-default_backoff

-- A world that counts calls and nanoseconds; the function fails at every call.
record Meter : Type 0 where
  count : ℕ
  time : ℕ

abbrev always_fails : Meter → Option (Unit {0}) × Meter
always_fails w = (some tt, record w { count = w.count + 1 })

abbrev sleep : ℕ → Meter → Wake × Meter
sleep d w = (elapsed, record w { time = w.time + d })

abbrev no_log : Option (ℕ → Unit {0} → ℕ → Meter → Meter)
no_log = none

abbrev start : Meter
start = record { count = 0; time = 0 }

three_attempts :
    retry_do default_backoff 3 no_log sleep always_fails 3 start
    ≡ returned (some (failed_after 3 tt)) (record { count = 3; time = 3 * second })
unfolding retry_do default_backoff delay
three_attempts = refl

start-IsMetered : IsMetered no_log sleep always_fails (λ w. w.count) (λ w. w.time)
unfolding call_log
start-IsMetered = omega arith

retry_do_calls_example :
    Returns
      (λ r w. CallsMade 3 0 w.count r × (w.time ≤ 0 + 2 * default_backoff.max_delay))
      (retry_do default_backoff 3 no_log sleep always_fails 3 start)
retry_do_calls_example =
    retry_do_calls default_backoff 3 3 no_log sleep always_fails (λ w. w.count) (λ w. w.time)
      start-IsMetered (omega arith) (IsSound-default_backoff.starts_below) (omega arith) start

abbrev two_then_ten : CircuitBreakerConfig
two_then_ten = record { failure_threshold = pos 2; retry_interval = pos 10 }

abbrev fresh : CircuitBreaker
fresh = new_circuit_breaker two_then_ten

run-IsValid_example : IsValid (run fresh (failing 1 ∷ failing 2 ∷ allowing 12 ∷ succeeding ∷ []))
unfolding new_circuit_breaker
run-IsValid_example =
    run-IsValid fresh (failing 1 ∷ failing 2 ∷ allowing 12 ∷ succeeding ∷ [])
      (new_circuit_breaker-IsValid two_then_ten) (omega arith)

two_failures : (run fresh (map failing (1 ∷ 2 ∷ []))).state ≡ circuit_open
unfolding new_circuit_breaker
two_failures =
    failures_trip fresh (1 ∷ 2 ∷ []) (new_circuit_breaker-IsValid two_then_ten) (λ p. cc)
      (omega arith)

abbrev once_failed : CircuitBreaker
once_failed = run fresh (failing 1 ∷ [])

recovery_cycle_example :
    (allow 5 (record_failure 2 once_failed) ≡ (false, record_failure 2 once_failed))
    × ((allow 12 (record_failure 2 once_failed)).0 ≡ true)
    × (allow 13 (allow 12 (record_failure 2 once_failed)).1
        ≡ (false, (allow 12 (record_failure 2 once_failed)).1))
    × (allow 13 (record_success (allow 12 (record_failure 2 once_failed)).1)
        ≡ (true, record_success (allow 12 (record_failure 2 once_failed)).1))
    × (allow 20 (record_failure 15 (allow 12 (record_failure 2 once_failed)).1)
        ≡ (false, record_failure 15 (allow 12 (record_failure 2 once_failed)).1))
unfolding new_circuit_breaker run
recovery_cycle_example =
    recovery_cycle once_failed 2 10
      (run-IsValid fresh (failing 1 ∷ []) (new_circuit_breaker-IsValid two_then_ten) (omega arith))
      (omega arith) refl (omega arith) (omega arith) 5 12 13 15 20 (omega arith) (omega arith)
      (omega arith)
