-- ===== src/Retry/Loop/Rule.antt =====
-- The proof rule of the retry loop with a limit on the attempts: an invariant of the attempts
-- gives a postcondition of the return, and the loop does return.
use cloud_comp_project.Base.{
  ℕ, zero, suc, ◌+◌, ◌≤◌, ◌<◌, ◌≡◌, refl, true, false, Option, none, some, arith, inl, inr,
  Bool-cases,
}
use cloud_comp_project.Retry.Backoff.{BackoffConfig, delay}
use cloud_comp_project.Retry.Loop.{
  Wake, cancelled, elapsed, RetryError, failed_after, context_error, Run, out_of_fuel, returned,
  is_last, call_log, on_wake, after_call, retry_from,
}

-- The loop returns, and `Q` holds of what it returns.
abbrev pub Returns : {W E : Type 0} → (Option (RetryError E) → W → Type 0) → Run W E → Type 0
Returns Q (out_of_fuel w) = ⊥
Returns Q (returned r w) = Q r w

abbrev pub AfterWait :
    {W E : Type 0} → (ℕ → W → Type 0) → (Option (RetryError E) → W → Type 0) → ℕ → Wake → W → Type 0
AfterWait P Q attempt cancelled w = Q (some context_error) w
AfterWait P Q attempt elapsed w = P (attempt + 1) w

is_last_bound : (m n : ℕ) → 0 < m → is_last m n ≡ false → n + 1 < m
unfolding is_last
is_last_bound m n p h = ground arith

module _ {W E : Type 0} (cfg : BackoffConfig) (max_attempts : ℕ)
    (log_fn : Option (ℕ → E → ℕ → W → W)) (select : ℕ → W → Wake × W) (fn : W → Option E × W)
    (P : ℕ → W → Type 0) (Q : Option (RetryError E) → W → Type 0) (limited : 0 < max_attempts)
    (on_success : (n : ℕ) (w : W) → P n w → (fn w).0 ≡ none → Q none (fn w).1)
    (on_last : (n : ℕ) (w : W) (e : E)
      → P n w
      → (fn w).0 ≡ some e
      → is_last max_attempts n ≡ true
      → Q (some (failed_after (n + 1) e)) (fn w).1)
    (on_wait : (n : ℕ) (w : W) (e : E)
      → P n w
      → (fn w).0 ≡ some e
      → n + 1 < max_attempts
      → let waited = select (delay cfg n) (call_log log_fn n e (delay cfg n) (fn w).1) in
        AfterWait P Q n waited.0 waited.1) where
  waited :
      (n : ℕ) (wake : Wake) (w : W) (next : W → Run W E)
      → AfterWait P Q n wake w
      → ((w' : W) → P (n + 1) w' → Returns Q (next w'))
      → Returns Q (on_wake wake w next)
  unfolding on_wake
  waited n cancelled w next h k = h
  waited n elapsed w next h k = k w h

  called :
      (n : ℕ) (w : W) (next : W → Run W E)
      → P n w
      → ((w' : W) → n + 1 < max_attempts → P (n + 1) w' → Returns Q (next w'))
      → (r : Option E) → (fn w).0 ≡ r
      → Returns Q (after_call cfg max_attempts log_fn select n r (fn w).1 next)
  unfolding after_call
  called n w next p k none e = on_success n w p e
  called n w next p k (some x) e = elim (Bool-cases (is_last max_attempts n)) [
    | inl last ↦ rw (last, Returns) (on_last n w x p e last)
    | inr more ↦
        let lt = is_last_bound max_attempts n limited more in
        rw (more, Returns) (waited n _ _ next (on_wait n w x p e lt) (λ w'. k w' lt))
  ]

  pub retry_rule :
      (fuel n : ℕ) (w : W)
      → n < max_attempts
      → max_attempts ≤ n + fuel
      → P n w
      → Returns Q (retry_from cfg max_attempts log_fn select fn fuel n w)
  unfolding retry_from
  retry_rule zero n w lt enough p = absurd (omega arith)
  retry_rule (suc fuel) n w lt enough p =
      called n w (retry_from cfg max_attempts log_fn select fn fuel (n + 1)) p
        (λ w' lt'. retry_rule fuel (n + 1) w' lt' (omega arith)) (fn w).0 refl
