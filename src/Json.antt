-- ===== src/Json.antt =====
-- What state-sync-engine/internal/state/state.go uses of Go's package encoding/json: the members of an
-- object, their names, and the values that a field of a struct takes. The characters of the text are
-- not spelled out. A string that `time.Time` has written is its instant.
use cloud_comp_project.Base.{
  ℕ, ◌+◌, ◌&&◌, Bool, leb, ltb, ◌==◌, ℤ, pos, negsuc, max_int64, minute, ◌*◌, ◌^◌, Option, none,
  some, List, map, Text, text_eq, if◌then◌else◌,
}

-- `json_other` stands for every value that is no string, integer or null.
pub data MemberValue : Type 0 where
  json_string : Text → MemberValue
  json_time : ℕ → MemberValue
  json_number : ℤ → MemberValue
  json_null json_other : MemberValue

abbrev pub Members : Type 0
Members = List (Text × MemberValue)

-- A character, with the letters that fold to the same one; the last two are the long s and the
-- sign for Kelvin.
unfoldable pub fold_rune : ℕ → ℕ
fold_rune c =
    if leb 65 c && leb c 90
    then c + 32
    else if c == 0x17f
    then 115
    else if c == 0x212a
    then 107
    else c

-- A member's name matches the tag of a field, which is in lower case, whatever its own case is.
unfoldable pub matches_tag : Text → Text → Bool
unfolding fold_rune text_eq
matches_tag tag name = text_eq (map fold_rune name) tag

-- The time can be written: its year is at most 9999.
unfoldable pub is_writable_time : ℕ → Bool
is_writable_time t = ltb t (3652059 * (1440 * minute))

unfoldable pub fits_int64 : ℤ → Bool
fits_int64 (pos n) = leb n max_int64
fits_int64 (negsuc n) = leb n max_int64

-- What a field that holds the first argument takes from a value, unless the value is refused. A null
-- leaves the field as it is. `time_text` gives the characters of an instant.
unfoldable pub text_from : (ℕ → Text) → Text → MemberValue → Option Text
text_from time_text s (json_string x) = some x
text_from time_text s (json_time t) = some (time_text t)
text_from time_text s (json_number n) = none
text_from time_text s json_null = some s
text_from time_text s json_other = none

unfoldable pub time_from : ℕ → MemberValue → Option ℕ
time_from t (json_string x) = none
time_from t (json_time x) = some x
time_from t (json_number n) = none
time_from t json_null = some t
time_from t json_other = none

unfoldable pub int64_from : ℤ → MemberValue → Option ℤ
unfolding fits_int64
int64_from i (json_string x) = none
int64_from i (json_time t) = none
int64_from i (json_number n) = if fits_int64 n then some n else none
int64_from i json_null = some i
int64_from i json_other = none

unfoldable pub uint64_from : ℕ → MemberValue → Option ℕ
uint64_from i (json_string x) = none
uint64_from i (json_time t) = none
uint64_from i (json_number (pos n)) = if ltb n (2 ^ 64) then some n else none
uint64_from i (json_number (negsuc n)) = none
uint64_from i json_null = some i
uint64_from i json_other = none
