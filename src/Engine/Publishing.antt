-- ===== src/Engine/Publishing.antt =====
-- The retried publish of a flush, and its proof rule.
use cloud_comp_project.Base.{ℕ, ◌+◌, ◌<◌, ◌≡◌, Option, none, some, List, arith}
use cloud_comp_project.Interfaces.{ChangeEvent}
use cloud_comp_project.Retry.Loop.{Wake, cancelled, elapsed, RetryError, Run, retry_do}
use cloud_comp_project.Retry.Loop.Rule.{Returns, AfterWait, retry_rule}
use cloud_comp_project.Engine.{Context, Environment, publish_backoff, publish_attempts}

abbrev pub publishing : {W E : Type 0} → Environment W E → Context → List ChangeEvent → W → Run W E
publishing env ctx batch w =
    retry_do publish_backoff publish_attempts (some (λ attempt x d w. w)) (env.select ctx)
      (env.publisher.publish batch) publish_attempts w

-- `Q` holds after a publish that returned nil, and `R` where the last one did not.
abbrev pub Ends : {W E : Type 0} → (W → Type 0) → (W → Type 0) → Option (RetryError E) → W → Type 0
Ends Q R none w = Q w
Ends Q R (some x) w = R w

module _ {W E : Type 0} (env : Environment W E) (ctx : Context) (batch : List ChangeEvent)
    (P : ℕ → W → Type 0) (Q R : W → Type 0)
    (succeeds : (n : ℕ) (w : W)
      → n < 3
      → P n w
      → (env.publisher.publish batch w).0 ≡ none
      → Q (env.publisher.publish batch w).1)
    (fails : (n : ℕ) (w : W) (x : E)
      → P n w
      → (env.publisher.publish batch w).0 ≡ some x
      → P (n + 1) (env.publisher.publish batch w).1)
    (waits : (n d : ℕ) (w : W) → P n w → P n (env.select ctx d w).1)
    (gives_up : (n : ℕ) (w : W) → n < 3 → P (n + 1) w → R w) where
  abbrev Before : ℕ → W → Type 0
  Before n w = (n < 3) × P n w

  waited :
      (n : ℕ) (wake : Wake) (w : W)
      → n + 1 < 3
      → P (n + 1) w
      → AfterWait {E = E} Before (Ends Q R) n wake w
  waited n cancelled w lt h = gives_up n w (omega arith) h
  waited n elapsed w lt h = (lt, h)

  -- `P n` before the publish after `n` failures gives the postconditions of the loop.
  pub publishing_rule : (w : W) → P 0 w → Returns (Ends Q R) (publishing env ctx batch w)
  unfolding retry_do
  publishing_rule w h =
      retry_rule publish_backoff publish_attempts (some (λ attempt x d w. w)) (env.select ctx)
        (env.publisher.publish batch) Before (Ends Q R) (omega arith)
        (λ n w p done. succeeds n w p.0 p.1 done)
        (λ n w x p failed last. gives_up n _ p.0 (fails n w x p.1 failed))
        (λ n w x p failed lt. waited n _ _ lt (waits (n + 1) _ _ (fails n w x p.1 failed)))
        publish_attempts 0 w (omega arith) (omega arith) (omega arith, h)
