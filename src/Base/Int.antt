-- ===== src/Base/Int.antt =====
-- Signed numbers (`int`, `time.Duration`) and the clock. A `time.Time` is the number of nanoseconds
-- since Go's zero time, so that `IsZero` is `0`.
use Prim.Native.Nat.{ℕ, zero, suc, ◌+◌, ◌-◌, ◌^◌}
use mathlib.Core.Bool.{Bool, true, false}
use cloud_comp_project.Base.Tests.{ltb, leb, if◌then◌else◌}

-- `negsuc n` is -(n + 1).
pub data ℤ : Type 0 where
  pos : ℕ → ℤ
  negsuc : ℕ → ℤ

-- `x > 0`
abbrev pub is_pos : ℤ → Bool
is_pos (pos zero) = false
is_pos (pos (suc n)) = true
is_pos (negsuc n) = false

-- The value of a positive number.
abbrev pub pos_part : ℤ → ℕ
pos_part (pos n) = n
pos_part (negsuc n) = 0

-- `a < b`
abbrev pub lt_ℤ : ℤ → ℤ → Bool
lt_ℤ (pos a) (pos b) = ltb a b
lt_ℤ (pos a) (negsuc b) = false
lt_ℤ (negsuc a) (pos b) = true
lt_ℤ (negsuc a) (negsuc b) = ltb b a

-- `int64` has the values -2 ^ 63 .. 2 ^ 63 - 1.
abbrev pub max_int64 : ℕ
max_int64 = 2 ^ 63 - 1

-- `a + n` in `int64`, for `n` of `int64`: past the end it wraps around.
unfoldable pub add_int64 : ℤ → ℕ → ℤ
add_int64 (pos a) n = if leb (a + n) max_int64 then pos (a + n) else negsuc (2 ^ 64 - 1 - (a + n))
add_int64 (negsuc a) n = if leb n a then negsuc (a - n) else pos (n - a - 1)

-- `t.Add(d)`
unfoldable pub time_add : ℕ → ℤ → ℕ
time_add t (pos n) = t + n
time_add t (negsuc n) = t - suc n

-- `t.Sub(u)`, which saturates at the ends of `time.Duration`.
unfoldable pub time_sub : ℕ → ℕ → ℤ
time_sub t u =
    if leb u t
    then (if ltb max_int64 (t - u) then pos max_int64 else pos (t - u))
    else (if ltb max_int64 (u - t - 1) then negsuc max_int64 else negsuc (u - t - 1))

-- A second and a minute, as `time.Duration`.
abbrev pub second : ℕ
second = 1_000_000_000

abbrev pub minute : ℕ
minute = 60_000_000_000
