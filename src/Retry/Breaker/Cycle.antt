-- ===== src/Retry/Breaker/Cycle.antt =====
-- How the breaker trips, blocks, probes and recovers.
use cloud_comp_project.Base.{
  ℕ, ◌+◌, ◌≤◌, ◌<◌, ◌≡◌, ◌≢◌, true, false, pos, pos_part, max_int64, List, [], ◌∷◌, map, length,
  arith, if◌then◌else◌, time_sub, leb,
}
use cloud_comp_project.Retry.Breaker.{
  CircuitState, circuit_closed, circuit_open, circuit_half_open, CircuitBreaker, allow,
  record_success, record_failure,
}
use cloud_comp_project.Retry.Breaker.Invariant.{IsValid, failing, run, record_failure-IsValid}

-- The state after failures at the times `ts`, by the count alone.
abbrev pub tripped : CircuitBreaker → List ℕ → CircuitState
tripped cb ts =
    if leb (pos_part cb.failure_threshold) (pos_part cb.consecutive_failures + length ts)
    then circuit_open
    else circuit_closed

fail_once :
    (now : ℕ) (cb : CircuitBreaker)
    → IsValid cb
    → pos_part cb.consecutive_failures < max_int64
    → (pos_part (record_failure now cb).consecutive_failures ≡ pos_part cb.consecutive_failures + 1)
      × ((record_failure now cb).failure_threshold ≡ cb.failure_threshold)
      × ((record_failure now cb).state ≡ (
          if leb (pos_part cb.failure_threshold) (pos_part cb.consecutive_failures + 1)
          then circuit_open
          else cb.state))
unfolding record_failure
fail_once now cb v room = ground arith

trip_none :
    (cb : CircuitBreaker) → IsValid cb → cb.state ≢ circuit_half_open → cb.state ≡ tripped cb []
trip_none cb v h = ground arith

not_half_open :
    (now : ℕ) (cb : CircuitBreaker)
    → cb.state ≢ circuit_half_open
    → (record_failure now cb).state ≡ (
        if leb (pos_part cb.failure_threshold) (pos_part cb.consecutive_failures + 1)
        then circuit_open
        else cb.state)
    → (record_failure now cb).state ≢ circuit_half_open
not_half_open now cb h e = ground arith

-- A valid breaker that is closed, or already open, is open after a run of failures exactly if the
-- failures in a row have reached the threshold; else it is closed.
pub failures_trip :
    (cb : CircuitBreaker) (ts : List ℕ)
    → IsValid cb
    → cb.state ≢ circuit_half_open
    → pos_part cb.consecutive_failures + length ts ≤ max_int64
    → (run cb (map failing ts)).state ≡ tripped cb ts
unfolding run
failures_trip cb [] v h room = trip_none cb v h
failures_trip cb (t ∷ ts) v h room =
    let once = fail_once t cb v (omega arith) in
    let ih =
      failures_trip (record_failure t cb) ts (record_failure-IsValid t cb v (omega arith))
        (not_half_open t cb h once.2) (omega (arith, once)) in
    ground (arith, ih, once)

module _ (cb : CircuitBreaker) (t r : ℕ) (v : IsValid cb)
    (room : pos_part cb.consecutive_failures + 2 ≤ max_int64) (interval : cb.retry_interval ≡ pos r)
    (r_fits : r ≤ max_int64)
    (last_straw : pos_part cb.failure_threshold ≤ pos_part cb.consecutive_failures + 1) where
  abbrev broken : CircuitBreaker
  broken = record_failure t cb

  abbrev probing : ℕ → CircuitBreaker
  probing now = (allow now broken).1

  blocked : (now : ℕ) → now < t + r → allow now broken ≡ (false, broken)
  unfolding allow record_failure time_sub
  blocked now h = ground arith

  one_probe :
      (now later : ℕ)
      → t + r ≤ now
      → ((allow now broken).0 ≡ true)
        × ((probing now).state ≡ circuit_half_open)
        × (allow later (probing now) ≡ (false, probing now))
  unfolding allow record_failure time_sub
  one_probe now later h = ground arith

  probe_succeeds :
      (now later : ℕ)
      → t + r ≤ now
      → allow later (record_success (probing now)) ≡ (true, record_success (probing now))
  unfolding allow record_failure record_success time_sub
  probe_succeeds now later h = ground arith

  probe_fails :
      (now t' later : ℕ)
      → t + r ≤ now
      → later < t' + r
      → allow later (record_failure t' (probing now)) ≡ (false, record_failure t' (probing now))
  unfolding allow record_failure time_sub
  probe_fails now t' later h k = ground arith

  -- When a failure at time t brings a valid breaker to its threshold, every request before t plus
  -- the retry interval r is refused and changes nothing. The first request from then on is let
  -- through as a probe, and until its outcome is recorded every other request is refused. If the
  -- probe succeeds, requests pass; if it fails at time t', they are refused until t' + r.
  pub recovery_cycle :
      (early now later t' soon : ℕ)
      → early < t + r
      → t + r ≤ now
      → soon < t' + r
      → (allow early broken ≡ (false, broken))
        × ((allow now broken).0 ≡ true)
        × (allow later (probing now) ≡ (false, probing now))
        × (allow later (record_success (probing now)) ≡ (true, record_success (probing now)))
        × (allow soon (record_failure t' (probing now)) ≡ (false, record_failure t' (probing now)))
  recovery_cycle early now later t' soon h k l =
      let probe = one_probe now later k in
      (blocked early h, probe.0, probe.2, probe_succeeds now later k, probe_fails now t' soon k l)
