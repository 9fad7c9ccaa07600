-- ===== src/Replication/Identifier.antt =====
-- state-sync-engine/internal/replication/subscriber.go: how names are checked and quoted.
pub mod Scan
use cloud_comp_project.Base.{
  ℕ, Bool, true, false, ◌&&◌, ◌||◌, ◌==◌, leb, List, [], ◌∷◌, ◌++◌, Text, if◌then◌else◌,
}
use cloud_comp_project.Interfaces.{Result, ok, err}

-- A double quote, and a full stop.
abbrev pub quote : ℕ
quote = 34

abbrev pub dot : ℕ
dot = 46

-- the test on a rune in `isSafeIdentifier`
pub is_safe_rune : ℕ → Bool
is_safe_rune r =
    (leb 97 r && leb r 122) || (leb 65 r && leb r 90) || (leb 48 r && leb r 57) || r == 95

pub all_safe : Text → Bool
unfolding is_safe_rune
all_safe [] = true
all_safe (r ∷ s) = is_safe_rune r && all_safe s

-- `isSafeIdentifier`
unfoldable pub is_safe_identifier : Text → Bool
unfolding all_safe
is_safe_identifier [] = false
is_safe_identifier (r ∷ s) = all_safe (r ∷ s)

-- `strings.ReplaceAll(identifier, "\"", "\"\"")`
pub double_quotes : Text → Text
double_quotes [] = []
double_quotes (r ∷ s) =
    let rest = double_quotes s in if r == quote then quote ∷ quote ∷ rest else r ∷ rest

-- `quoteIdentifier`
unfoldable pub quote_identifier : Text → Text
unfolding double_quotes
quote_identifier s = quote ∷ double_quotes s ++ quote ∷ []

-- `strings.Split(s, sep)`, for a separator of one character
pub in_first : ℕ → List Text → List Text
in_first r [] = (r ∷ []) ∷ []
in_first r (p ∷ ps) = (r ∷ p) ∷ ps

pub split : ℕ → Text → List Text
unfolding in_first
split sep [] = [] ∷ []
split sep (r ∷ s) = let rest = split sep s in if r == sep then [] ∷ rest else in_first r rest

-- `quoteQualifiedTable`, for the parts of the table's name; the error is the invalid name.
pub quote_parts : Text → List Text → Result Text Text
unfolding is_safe_identifier quote_identifier
quote_parts table (p ∷ []) = if is_safe_identifier p then ok (quote_identifier p) else err table
quote_parts table (p ∷ q ∷ []) =
    if is_safe_identifier p && is_safe_identifier q
    then ok (quote_identifier p ++ dot ∷ quote_identifier q)
    else err table
quote_parts table _ = err table

-- `quoteQualifiedTable`
unfoldable pub quote_qualified_table : Text → Result Text Text
unfolding quote_parts split
quote_qualified_table table = quote_parts table (split dot table)
