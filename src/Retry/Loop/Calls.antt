-- ===== src/Retry/Loop/Calls.antt =====
-- How often the retry loop calls its function, and how long it waits.
use native.Mathlib.Nat.{mul-le-mul_right}
use cloud_comp_project.Base.{ℕ, ◌+◌, ◌*◌, ◌-◌, ◌≤◌, ◌<◌, ◌≡◌, true, Option, none, some, arith}
use cloud_comp_project.Retry.Backoff.{BackoffConfig, delay}
use cloud_comp_project.Retry.Backoff.Bounds.{delay-le-max_delay}
use cloud_comp_project.Retry.Loop.{
  Wake, cancelled, elapsed, RetryError, failed_after, context_error, is_last, call_log, retry_do,
}
use cloud_comp_project.Retry.Loop.Rule.{Returns, AfterWait, retry_rule}

-- A world in which the calls and the time are counted: a call of the function counts one, the log
-- function none; a wait of `d` takes at most `d`, and nothing else takes time.
pub record IsMetered {W E : Type 0} (log_fn : Option (ℕ → E → ℕ → W → W))
    (select : ℕ → W → Wake × W) (fn : W → Option E × W) (calls clock : W → ℕ) : Type 0 where
  pub call_counts : (w : W) → calls (fn w).1 ≡ calls w + 1
  pub log_calls : (n : ℕ) (e : E) (d : ℕ) (w : W) → calls (call_log log_fn n e d w) ≡ calls w
  pub select_calls : (d : ℕ) (w : W) → calls (select d w).1 ≡ calls w
  pub call_clock : (w : W) → clock (fn w).1 ≡ clock w
  pub log_clock : (n : ℕ) (e : E) (d : ℕ) (w : W) → clock (call_log log_fn n e d w) ≡ clock w
  pub select_clock : (d : ℕ) (w : W) → clock (select d w).1 ≤ clock w + d

-- The calls made between two counts, for each way to return.
abbrev pub CallsMade : {E : Type 0} → ℕ → ℕ → ℕ → Option (RetryError E) → Type 0
CallsMade m before after none = (before < after) × (after ≤ before + m)
CallsMade m before after (some (failed_after n e)) = (n ≡ m) × (after ≡ before + m)
CallsMade m before after (some context_error) = (before < after) × (after < before + m)

module _ {W E : Type 0} (cfg : BackoffConfig) (max_attempts fuel : ℕ)
    (log_fn : Option (ℕ → E → ℕ → W → W)) (select : ℕ → W → Wake × W) (fn : W → Option E × W)
    (calls clock : W → ℕ) (metered : IsMetered log_fn select fn calls clock)
    (limited : 0 < max_attempts) (capped : cfg.initial_delay ≤ cfg.max_delay)
    (enough : max_attempts ≤ fuel) (w0 : W) where
  abbrev Before : ℕ → W → Type 0
  Before n w =
      (n < max_attempts) × (calls w ≡ calls w0 + n) × (clock w ≤ clock w0 + n * cfg.max_delay)

  abbrev After : Option (RetryError E) → W → Type 0
  After r w =
      CallsMade max_attempts (calls w0) (calls w) r
      × (clock w ≤ clock w0 + (max_attempts - 1) * cfg.max_delay)

  waits : (m n : ℕ) → m ≤ n → m * cfg.max_delay ≤ n * cfg.max_delay
  waits m n h = mul-le-mul_right cfg.max_delay h

  after_wait :
      (n : ℕ) (wake : Wake) (w : W)
      → n + 1 < max_attempts
      → calls w ≡ calls w0 + n + 1
      → clock w ≤ clock w0 + (n + 1) * cfg.max_delay
      → AfterWait Before After n wake w
  after_wait n cancelled w lt c t = omega (arith, waits (n + 1) (max_attempts - 1) (omega arith))
  after_wait n elapsed w lt c t = omega arith

  at_last : (n : ℕ) → n < max_attempts → is_last max_attempts n ≡ true → n + 1 ≡ max_attempts
  unfolding is_last
  at_last n lt h = ground arith

  After-success : (n : ℕ) (w : W) → Before n w → (fn w).0 ≡ none → After none (fn w).1
  After-success n w p done = omega (
    arith,
    metered.call_counts w,
    metered.call_clock w,
    waits n (max_attempts - 1) (omega (arith, p)),
  )

  After-last :
      (n : ℕ) (w : W) (e : E)
      → Before n w
      → (fn w).0 ≡ some e
      → is_last max_attempts n ≡ true
      → After (some (failed_after (n + 1) e)) (fn w).1
  After-last n w e p failed last = omega (
    arith,
    at_last n p.0 last,
    metered.call_counts w,
    metered.call_clock w,
    waits n (max_attempts - 1) (omega (arith, p)),
  )

  After-failure :
      (n : ℕ) (w : W) (e : E)
      → Before n w
      → (fn w).0 ≡ some e
      → n + 1 < max_attempts
      → let waited = select (delay cfg n) (call_log log_fn n e (delay cfg n) (fn w).1) in
        AfterWait Before After n waited.0 waited.1
  After-failure n w e p failed lt =
      let d = delay cfg n in
      let w1 = (fn w).1 in
      let w2 = call_log log_fn n e d w1 in
      after_wait n (select d w2).0 (select d w2).1 lt
        (omega
          (arith, p, metered.call_counts w, metered.log_calls n e d w1, metered.select_calls d w2))
        (omega (
          arith,
          p,
          metered.call_clock w,
          metered.log_clock n e d w1,
          metered.select_clock d w2,
          delay-le-max_delay cfg n capped,
        ))

  -- With a limit of m > 0 attempts and fuel for m iterations, in a metered world and for a first
  -- delay at most the cap, the loop returns. If it returns nil it has called the function between
  -- once and m times; if it gives up, exactly m times, and m is the count in its message; if the
  -- context ended it, fewer than m times and at least once. The waits take (m - 1) caps at most.
  pub retry_do_calls : Returns After (retry_do cfg max_attempts log_fn select fn fuel w0)
  unfolding retry_do
  retry_do_calls =
      retry_rule cfg max_attempts log_fn select fn Before After limited After-success After-last
        After-failure fuel 0 w0 limited (omega arith) (omega arith)
