-- ===== src/Replication/Identifier/Scan.antt =====
-- How PostgreSQL reads quoted names, and that it reads from a quoted name the name that was quoted.
use mathlib.Core.List.{append_assoc, append-nil}
use cloud_comp_project.Base.{
  ℕ, ◌≡◌, ◌≢◌, refl, sym, ap, ◌∙◌, Bool, true, false, ◌&&◌, ◌==◌, ==_iff, Bool-cases, inl, inr,
  Option, none, some, List, [], ◌∷◌, ◌++◌, arith, Text, join, if◌then◌else◌,
}
use cloud_comp_project.Interfaces.{ok, err}
use cloud_comp_project.Replication.Identifier.{
  quote, dot, double_quotes, quote_identifier, in_first, split, quote_parts, quote_qualified_table,
  is_safe_identifier,
}

abbrev prefixed : ℕ → Option (Text × Text) → Option (Text × Text)
prefixed r none = none
prefixed r (some (name, rest)) = some (r ∷ name, rest)

-- What follows the opening quote: the name up to the closing quote, and the rest of the input. A
-- quote inside the name is written twice; `true` means that the last character was a quote that may
-- be the first of two.
pub scan_name : Bool → Text → Option (Text × Text)
scan_name false [] = none
scan_name true [] = some ([], [])
scan_name false (r ∷ s) = elim (r == quote) [
  | true ↦ scan_name true s
  | false ↦ prefixed r (scan_name false s)
]
scan_name true (r ∷ s) = elim (r == quote) [
  | true ↦ prefixed quote (scan_name false s)
  | false ↦ some ([], r ∷ s)
]

-- A quoted identifier at the start of the input.
unfoldable pub scan_identifier : Text → Option (Text × Text)
unfolding scan_name
scan_identifier [] = none
scan_identifier (r ∷ s) = elim (r == quote) [ true ↦ scan_name false s | false ↦ none ]

-- Whether a text starts with a quote.
abbrev pub quote_next : Text → Bool
quote_next [] = false
quote_next (r ∷ s) = r == quote

scan_closed : (rest : Text) → quote_next rest ≡ false → scan_name true rest ≡ some ([], rest)
unfolding scan_name
scan_closed [] h = refl
scan_closed (r ∷ s) h = ground arith

scan_doubled :
    (s rest : Text)
    → quote_next rest ≡ false
    → scan_name false (double_quotes s ++ quote ∷ rest) ≡ some (s, rest)
unfolding scan_name double_quotes
scan_doubled [] rest h = scan_closed rest h
scan_doubled (r ∷ s) rest h = elim (Bool-cases (r == quote)) [
  | inl same ↦ rw (same, (==_iff r quote).0 same, scan_doubled s rest h) refl
  | inr other ↦ rw (other, scan_name, other, scan_doubled s rest h) refl
]

-- PostgreSQL reads from a quoted identifier exactly the identifier that was quoted, whatever
-- characters it has, and goes on behind it, if what follows does not start with a double quote.
pub quote_identifier-scan :
    (s rest : Text)
    → quote_next rest ≡ false
    → scan_identifier (quote_identifier s ++ rest) ≡ some (s, rest)
unfolding scan_identifier quote_identifier
quote_identifier-scan s rest h =
    ap (scan_name false) (append_assoc (double_quotes s) (quote ∷ []) rest) ∙ scan_doubled s rest h

second_name : Text → Option (Text × Text) → Option (List Text)
second_name p none = none
second_name p (some (q, [])) = some (p ∷ q ∷ [])
second_name p (some (q, _ ∷ _)) = none

first_name : Option (Text × Text) → Option (List Text)
unfolding second_name
first_name none = none
first_name (some (p, [])) = some (p ∷ [])
first_name (some (p, r ∷ s)) = elim (r == dot) [
  | true ↦ second_name p (scan_identifier s)
  | false ↦ none
]

-- A quoted name, or two with a full stop between them, and nothing else: the names.
unfoldable pub scan_table : Text → Option (List Text)
unfolding first_name
scan_table s = first_name (scan_identifier s)

scan_last : (s : Text) → scan_identifier (quote_identifier s) ≡ some (s, [])
scan_last s =
    ap scan_identifier (sym (append-nil (quote_identifier s))) ∙ quote_identifier-scan s [] refl

guarded :
    (table : Text) {q : Text} (b : Bool) (s : Text)
    → (if b then ok s else err table) ≡ ok q
    → (b ≡ true) × (s ≡ q)
guarded table true s h = (refl, cc)
guarded table false s h = cc

scan_one : (p q : Text) → quote_identifier p ≡ q → scan_table q ≡ some (p ∷ [])
unfolding scan_table first_name
scan_one p q h = rw (← h, scan_last p) refl

scan_two :
    (p p' q : Text)
    → quote_identifier p ++ dot ∷ quote_identifier p' ≡ q
    → scan_table q ≡ some (p ∷ p' ∷ [])
unfolding scan_table first_name second_name
scan_two p p' q h =
    rw (← h, quote_identifier-scan p (dot ∷ quote_identifier p') refl, scan_last p') refl

-- The parts of a name that PostgreSQL may read: one, or two, of letters, digits and underscores.
abbrev pub AreSafe : List Text → Type 0
AreSafe (p ∷ []) = is_safe_identifier p ≡ true
AreSafe (p ∷ p' ∷ []) = (is_safe_identifier p && is_safe_identifier p') ≡ true
AreSafe _ = ⊥

quote_parts-scan :
    (table : Text) (ps : List Text) (q : Text)
    → quote_parts table ps ≡ ok q
    → (scan_table q ≡ some ps) × AreSafe ps
unfolding quote_parts
quote_parts-scan table [] q h = cc
quote_parts-scan table (p ∷ []) q h =
    let (safe, e) = guarded table (is_safe_identifier p) (quote_identifier p) h in
    (scan_one p q e, safe)
quote_parts-scan table (p ∷ p' ∷ []) q h =
    let (safe, e) = guarded table (is_safe_identifier p && is_safe_identifier p') _ h in
    (scan_two p p' q e, safe)
quote_parts-scan table (p ∷ p' ∷ p'' ∷ ps) q h = cc

join-in_first :
    (r sep : ℕ) (ps : List Text)
    → ps ≢ []
    → join (sep ∷ []) (in_first r ps) ≡ r ∷ join (sep ∷ []) ps
unfolding in_first join
join-in_first r sep [] h = absurd (h refl)
join-in_first r sep (p ∷ []) h = refl
join-in_first r sep (p ∷ p' ∷ ps) h = refl

join-skip :
    (sep : ℕ) (ps : List Text) → ps ≢ [] → join (sep ∷ []) ([] ∷ ps) ≡ sep ∷ join (sep ∷ []) ps
unfolding join
join-skip sep [] h = absurd (h refl)
join-skip sep (p ∷ ps) h = refl

in_first-cons : (r : ℕ) (ps : List Text) → in_first r ps ≢ []
unfolding in_first
in_first-cons r [] h = cc
in_first-cons r (p ∷ ps) h = cc

split_step : (b : Bool) (r : ℕ) (ps : List Text) → (if b then [] ∷ ps else in_first r ps) ≢ []
split_step true r ps h = cc
split_step false r ps h = in_first-cons r ps h

split-cons : (sep : ℕ) (s : Text) → split sep s ≢ []
unfolding split
split-cons sep [] h = cc
split-cons sep (r ∷ s) h = split_step (r == sep) r (split sep s) h

join-split : (sep : ℕ) (s : Text) → join (sep ∷ []) (split sep s) ≡ s
unfolding split join
join-split sep [] = refl
join-split sep (r ∷ s) = elim (Bool-cases (r == sep)) [
  | inl same ↦
      rw (same, (==_iff r sep).0 same)
        (join-skip sep (split sep s) (split-cons sep s) ∙ ap (λ t. sep ∷ t) (join-split sep s))
  | inr other ↦
      rw other
        (join-in_first r sep (split sep s) (split-cons sep s) ∙ ap (λ t. r ∷ t) (join-split sep s))
]

-- If a table's name is accepted, PostgreSQL reads from its quoted form the parts of the name, which
-- are one or two, of letters, digits and underscores, and nothing besides; and the parts, with full
-- stops between them, are the name that was given.
pub quote_qualified_table-scan :
    (table q : Text)
    → quote_qualified_table table ≡ ok q
    → (scan_table q ≡ some (split dot table))
      × AreSafe (split dot table)
      × (join (dot ∷ []) (split dot table) ≡ table)
unfolding quote_qualified_table
quote_qualified_table-scan table q h =
    let (read, safe) = quote_parts-scan table (split dot table) q h in
    (read, safe, join-split dot table)
