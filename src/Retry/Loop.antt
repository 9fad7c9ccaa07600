-- ===== src/Retry/Loop.antt =====
-- state-sync-engine/internal/retry/backoff.go: the loop `Do`.
-- `W` is the state of the world that the calls change, `E` the type of errors. The `select` on the
-- context and the timer is a parameter: it reports which of the two fired.
pub mod Rule
pub mod Calls
use cloud_comp_project.Base.{
  ℕ, zero, suc, ◌+◌, Bool, true, false, ◌&&◌, Option, none, some, leb, ltb, if◌then◌else◌,
}
use cloud_comp_project.Retry.Backoff.{BackoffConfig, delay}

-- What ends the wait between two attempts.
pub data Wake : Type 0 where
  cancelled elapsed : Wake

-- `failed after %d attempts: %w`, or `ctx.Err()`
pub data RetryError (E : Type 0) : Type 0 where
  failed_after : ℕ → E → RetryError E
  context_error : RetryError E

-- `returned none w` is a return of `nil`.
pub data Run (W E : Type 0) : Type 0 where
  out_of_fuel : W → Run W E
  returned : Option (RetryError E) → W → Run W E

-- `maxAttempts > 0 && attempt+1 >= maxAttempts`
unfoldable pub is_last : ℕ → ℕ → Bool
is_last max_attempts attempt = ltb 0 max_attempts && leb max_attempts (attempt + 1)

module _ {W E : Type 0} where
  unfoldable pub call_log : Option (ℕ → E → ℕ → W → W) → ℕ → E → ℕ → W → W
  call_log none attempt e d w = w
  call_log (some log_fn) attempt e d w = log_fn attempt e d w

  -- the `select`; `next` is the rest of the loop
  pub on_wake : Wake → W → (W → Run W E) → Run W E
  on_wake cancelled w next = returned (some context_error) w
  on_wake elapsed w next = next w

  -- what follows the call of `fn` in an iteration
  pub after_call :
      BackoffConfig
      → ℕ
      → Option (ℕ → E → ℕ → W → W)
      → (ℕ → W → Wake × W)
      → ℕ
      → Option E
      → W
      → (W → Run W E)
      → Run W E
  unfolding on_wake
  after_call cfg max_attempts log_fn select attempt none w next = returned none w
  after_call cfg max_attempts log_fn select attempt (some e) w next =
      if is_last max_attempts attempt
      then returned (some (failed_after (attempt + 1) e)) w
      else let d = delay cfg attempt in
        let (wake, w') = select d (call_log log_fn attempt e d w) in on_wake wake w' next

  -- the iterations from `attempt` on; `fuel` bounds how many
  pub retry_from :
      BackoffConfig
      → ℕ
      → Option (ℕ → E → ℕ → W → W)
      → (ℕ → W → Wake × W)
      → (W → Option E × W)
      → ℕ
      → ℕ
      → W
      → Run W E
  retry_from cfg max_attempts log_fn select fn zero attempt w = out_of_fuel w
  retry_from cfg max_attempts log_fn select fn (suc fuel) attempt w =
      let (err, w') = fn w in
      after_call cfg max_attempts log_fn select attempt err w'
        (retry_from cfg max_attempts log_fn select fn fuel (attempt + 1))

  -- `Do`
  unfoldable pub retry_do :
      BackoffConfig
      → ℕ
      → Option (ℕ → E → ℕ → W → W)
      → (ℕ → W → Wake × W)
      → (W → Option E × W)
      → ℕ
      → W
      → Run W E
  unfolding retry_from after_call is_last call_log
  retry_do cfg max_attempts log_fn select fn fuel w =
      retry_from cfg max_attempts log_fn select fn fuel 0 w
