-- ===== src/Server/Duration.antt =====
-- `time.Duration.String` of Go's library, which state-sync-engine/internal/server/server.go uses.
use cloud_comp_project.Base.{
  ℕ, zero, suc, ◌+◌, ◌/◌, ◌%◌, Bool, false, not, ◌||◌, ◌==◌, ltb, ℤ, pos, negsuc, ◌∷◌, ◌++◌, Text,
  codes, decimal, if◌then◌else◌, second,
}

-- `fmtFrac`: the last `n` digits of `v` as a fraction in front of `out`, without the zeros at its
-- end, and the number before them.
pub fraction : ℕ → ℕ → Bool → Text → Text × ℕ
unfolding codes
fraction zero v printed out = (if printed then codes "." ++ out else out, v)
fraction (suc n) v printed out =
    let digit = v % 10 in
    let prints = printed || not (digit == 0) in
    fraction n (v / 10) prints (if prints then (48 + digit) ∷ out else out)

-- `v` in units of 10 ^ n
pub in_units : ℕ → ℕ → Text → Text
unfolding fraction decimal
in_units n v out = let (text, whole) = fraction n v false out in decimal whole ++ text

pub below_second : ℕ → Text
unfolding in_units codes
below_second u =
    if u == 0
    then codes "0s"
    else if ltb u 1_000
    then in_units 0 u (codes "ns")
    else if ltb u 1_000_000
    then in_units 3 u (0xb5 ∷ codes "s")
    else in_units 6 u (codes "ms")

pub with_minutes : ℕ → Text → Text
unfolding decimal codes
with_minutes minutes out =
    if minutes == 0
    then out
    else if minutes / 60 == 0
    then decimal minutes ++ codes "m" ++ out
    else decimal (minutes / 60) ++ codes "h" ++ decimal (minutes % 60) ++ codes "m" ++ out

pub from_second : ℕ → Text
unfolding with_minutes fraction decimal codes
from_second u =
    let (text, seconds) = fraction 9 u false (codes "s") in
    with_minutes (seconds / 60) (decimal (seconds % 60) ++ text)

pub magnitude : ℕ → Text
unfolding below_second from_second
magnitude u = if ltb u second then below_second u else from_second u

-- `d.String()`
unfoldable pub duration_string : ℤ → Text
unfolding magnitude codes
duration_string (pos n) = magnitude n
duration_string (negsuc n) = codes "-" ++ magnitude (suc n)
