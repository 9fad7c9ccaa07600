-- ===== src/Retry/Backoff.antt =====
-- state-sync-engine/internal/retry/backoff.go: `BackoffConfig` and `Delay`.
-- `Multiplier` is a whole number: each configuration of the program has 2.0, for which the
-- float64 product of `Delay` is exact until the cap replaces it.
pub mod Bounds
use cloud_comp_project.Base.{ℕ, zero, suc, ◌*◌, ◌^◌, ltb, if◌then◌else◌, second}

pub record BackoffConfig : Type 0 where
  pub initial_delay : ℕ
  pub max_delay : ℕ
  pub multiplier : ℕ

abbrev pub default_initial_delay : ℕ
default_initial_delay = 1 * second

abbrev pub default_max_delay : ℕ
default_max_delay = 60 * second

abbrev pub default_multiplier : ℕ
default_multiplier = 2

-- `DefaultBackoff`
unfoldable pub default_backoff : BackoffConfig
default_backoff = record {
  initial_delay = default_initial_delay;
  max_delay = default_max_delay;
  multiplier = default_multiplier;
}

-- `Delay`, of an attempt counted from 0
unfoldable pub delay : BackoffConfig → ℕ → ℕ
delay b zero = b.initial_delay
delay b (suc k) =
    let d = b.initial_delay * b.multiplier ^ suc k in if ltb b.max_delay d then b.max_delay else d
