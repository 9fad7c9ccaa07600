-- ===== src/Retry/Breaker/Probe.antt =====
-- A request under the breaker: `Allow`, and if it allows it, one of `RecordSuccess` and
-- `RecordFailure`. Such requests never leave the breaker half-open.
use cloud_comp_project.Base.{
  time_sub, pos, false, true, ℕ, ◌+◌, ◌≤◌, ◌<◌, ◌≡◌, ◌≢◌, ◌⊎◌, inl, inr, refl, subst, pos_part,
  arith, max_int64, add_int64,
}
use cloud_comp_project.Retry.Breaker.{
  circuit_half_open, CircuitBreaker, allow, record_success, record_failure,
}
use cloud_comp_project.Retry.Breaker.Invariant.{IsValid, allow-IsValid, record_failure-IsValid}

-- Valid, and closed or open.
pub record IsReady (cb : CircuitBreaker) : Type 0 where
  pub valid : IsValid cb
  pub decided : cb.state ≢ circuit_half_open

-- The breaker after a request, if there was one.
abbrev pub Requested : CircuitBreaker → CircuitBreaker → Type 0
Requested cb after =
    (after ≡ cb)
    ⊎ ((now : ℕ) × ((after ≡ record_success (allow now cb).1)
          ⊎ ((t : ℕ) × (after ≡ record_failure t (allow now cb).1))))

-- It is ready, has counted one failure at most, and waits as long as before.
abbrev pub Next : CircuitBreaker → CircuitBreaker → Type 0
Next cb after =
    IsReady after
    × (pos_part after.consecutive_failures ≤ pos_part cb.consecutive_failures + 1)
    × (after.retry_interval ≡ cb.retry_interval)

success-Next :
    (now : ℕ) (cb : CircuitBreaker) → IsReady cb → Next cb (record_success (allow now cb).1)
unfolding allow record_success
success-Next now cb r =
    (record { valid = ground arith; decided = λ e. cc }, ground arith, ground arith)

allow_count :
    (now : ℕ) (cb : CircuitBreaker)
    → ((allow now cb).1.consecutive_failures ≡ cb.consecutive_failures)
      × ((allow now cb).1.failure_threshold ≡ cb.failure_threshold)
      × ((allow now cb).1.retry_interval ≡ cb.retry_interval)
unfolding allow
allow_count now cb = ground arith

failure_decided :
    (t : ℕ) (cb : CircuitBreaker)
    → IsValid cb
    → pos_part cb.consecutive_failures < max_int64
    → (record_failure t cb).state ≢ circuit_half_open
unfolding record_failure add_int64
failure_decided t cb v room = ground arith

failure_counted :
    (t : ℕ) (cb : CircuitBreaker)
    → IsValid cb
    → pos_part cb.consecutive_failures < max_int64
    → pos_part (record_failure t cb).consecutive_failures ≤ pos_part cb.consecutive_failures + 1
unfolding record_failure add_int64
failure_counted t cb v room = ground arith

failure-Next :
    (now t : ℕ) (cb : CircuitBreaker)
    → IsReady cb
    → pos_part cb.consecutive_failures < max_int64
    → Next cb (record_failure t (allow now cb).1)
unfolding record_failure add_int64
failure-Next now t cb r room =
    let (count, limit, wait) = allow_count now cb in
    let v = allow-IsValid now cb r.valid in
    let room' : pos_part (allow now cb).1.consecutive_failures < max_int64 = rw count room in
    (
      record {
        valid = record_failure-IsValid t (allow now cb).1 v room';
        decided = failure_decided t (allow now cb).1 v room';
      },
      subst
          (λ n. pos_part (record_failure t (allow now cb).1).consecutive_failures ≤ pos_part n + 1)
          count (failure_counted t (allow now cb).1 v room'),
      wait,
    )

pub Requested-Next :
    (cb after : CircuitBreaker)
    → IsReady cb
    → pos_part cb.consecutive_failures < max_int64
    → Requested cb after
    → Next cb after
Requested-Next cb after r room (inl same) = rw same (r, omega arith, refl)
Requested-Next cb after r room (inr (now, inl done)) = rw done (success-Next now cb r)
Requested-Next cb after r room (inr (now, inr (t, failed))) =
    rw failed (failure-Next now t cb r room)

pub allow_refused :
    (now : ℕ) (cb : CircuitBreaker) → (allow now cb).0 ≡ false → (allow now cb).1 ≡ cb
unfolding allow
allow_refused now cb h = ground arith

-- A breaker that is not half-open allows a request when its interval is over since the last failure.
pub allow_ready :
    (now r : ℕ) (cb : CircuitBreaker)
    → IsReady cb
    → cb.retry_interval ≡ pos r
    → r < max_int64
    → cb.last_failure_time + r ≤ now
    → (allow now cb).0 ≡ true
unfolding allow time_sub
allow_ready now r cb ready wait short over = ground arith
