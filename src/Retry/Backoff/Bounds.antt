-- ===== src/Retry/Backoff/Bounds.antt =====
-- Delays are the capped powers of the multiplier, and they grow up to the cap.
use native.Mathlib.Nat.{pow-zero, mul-one, pow-le-pow_right, mul-le-mul_left}
use cloud_comp_project.Base.{ℕ, zero, suc, ◌+◌, ◌*◌, ◌^◌, ◌≤◌, ◌≡◌, min, arith}
use cloud_comp_project.Retry.Backoff.{BackoffConfig, delay, default_backoff}

-- A configuration that starts below its cap and does not shrink.
pub record IsSound (b : BackoffConfig) : Type 0 where
  pub starts_below : b.initial_delay ≤ b.max_delay
  pub grows : 1 ≤ b.multiplier

pub delay-eq-min :
    (b : BackoffConfig) (n : ℕ)
    → b.initial_delay ≤ b.max_delay
    → delay b n ≡ min b.max_delay (b.initial_delay * b.multiplier ^ n)
unfolding delay
delay-eq-min b zero s = simp (pow-zero, mul-one) (omega arith)
delay-eq-min b (suc k) s = ground arith

pub delay-le-max_delay :
    (b : BackoffConfig) (n : ℕ) → b.initial_delay ≤ b.max_delay → delay b n ≤ b.max_delay
delay-le-max_delay b n s = omega (arith, delay-eq-min b n s)

pub delay_mono : (b : BackoffConfig) (m n : ℕ) → IsSound b → m ≤ n → delay b m ≤ delay b n
delay_mono b m n s h =
    let powers : b.multiplier ^ m ≤ b.multiplier ^ n = pow-le-pow_right s.grows h in
    omega (
      arith,
      delay-eq-min b m s.starts_below,
      delay-eq-min b n s.starts_below,
      mul-le-mul_left b.initial_delay powers,
    )

-- For a configuration whose first delay is at most the cap and whose multiplier is at least one,
-- the delay of attempt n is the first delay times the multiplier to the n, cut at the cap; it is
-- never less than the first delay nor more than the cap, and a later attempt never waits less.
pub delay_schedule :
    (b : BackoffConfig) (n k : ℕ)
    → IsSound b
    → (delay b n ≡ min b.max_delay (b.initial_delay * b.multiplier ^ n))
      × (b.initial_delay ≤ delay b n)
      × (delay b n ≤ b.max_delay)
      × (delay b n ≤ delay b (n + k))
delay_schedule b n k s = (
  delay-eq-min b n s.starts_below,
  delay_from_first,
  delay-le-max_delay b n s.starts_below,
  delay_mono b n (n + k) s (omega arith),
)
  where
    delay_from_first : b.initial_delay ≤ delay b n
    delay_from_first = unfold delay in delay_mono b 0 n s (omega arith)

pub IsSound-default_backoff : IsSound default_backoff
unfolding default_backoff
IsSound-default_backoff = omega arith
