-- ===== src/Replication/Sql/Reading.antt =====
-- A reader of statements, independent of the code that writes them: the parts that a statement is
-- made of, and what is read of a list of them.
pub mod Numbers
pub mod Parts
pub mod Loops
use mathlib.Core.List.{append_assoc, append-nil}
use cloud_comp_project.Base.{
  expect, expect-append, ℕ, zero, suc, ◌+◌, ◌-◌, ◌*◌, ◌≤◌, ◌<◌, ◌≡◌, refl, sym, ap, ◌∙◌, Bool, true,
  false, ◌&&◌, ◌||◌, ◌==◌, leb, Option, none, some, List, [], ◌∷◌, ◌++◌, Text, join, length,
  length-append, arith, if◌then◌else◌,
}
use cloud_comp_project.Replication.Identifier.Scan.{
  scan_identifier, quote_identifier-scan, quote_next,
}
use cloud_comp_project.Replication.Identifier.{quote, quote_identifier}

-- A reader of a part at the start of a text: what it reads, and the rest.
abbrev pub Reader : Type 0 → Type 0
Reader A = Text → Option (A × Text)

-- Characters that may go on a name or a number.
abbrev pub is_digit : ℕ → Bool
is_digit c = leb 48 c && leb c 57

abbrev pub goes_on : Text → Bool
goes_on [] = false
goes_on (c ∷ s) = is_digit c || c == quote

-- The reader reads the part, whatever stands behind it, if that does not go on.
abbrev pub Reads : {A : Type 0} → Reader A → Text → A → Type 0
Reads p part a = (rest : Text) → goes_on rest ≡ false → p (part ++ rest) ≡ some (a, rest)

abbrev pub ReadsAll : {A : Type 0} → Reader A → List Text → List A → Type 0
ReadsAll p [] [] = Unit
ReadsAll p (t ∷ ts) (a ∷ vs) = Reads p t a × ReadsAll p ts vs
ReadsAll p _ _ = ⊥

module _ {A : Type 0} where
  abbrev preceded : A → Option (List A × Text) → Option (List A × Text)
  preceded a none = none
  preceded a (some (vs, rest)) = some (a ∷ vs, rest)

  -- a separated list of at most `fuel` parts
  pub read_list : Reader A → Text → ℕ → Reader (List A)
  read_list p sep zero s = none
  read_list p sep (suc fuel) s = elim (p s) [
    | none ↦ none
    | some (a, rest) ↦ elim (expect sep rest) [
      | none ↦ some (a ∷ [], rest)
      | some rest' ↦ preceded a (read_list p sep fuel rest')
    ]
  ]

  one_read :
      (p : Reader A) (sep s rest : Text) (a : A) (fuel : ℕ)
      → p s ≡ some (a, rest)
      → expect sep rest ≡ none
      → read_list p sep (suc fuel) s ≡ some (a ∷ [], rest)
  unfolding read_list
  one_read p sep s rest a fuel r e = rw (read_list, r, e) refl

  more_read :
      (p : Reader A) (sep s rest rest' : Text) (a : A) (fuel : ℕ)
      → p s ≡ some (a, rest)
      → expect sep rest ≡ some rest'
      → read_list p sep (suc fuel) s ≡ preceded a (read_list p sep fuel rest')
  unfolding read_list
  more_read p sep s rest rest' a fuel r e = rw (read_list, r, e) refl

  -- What a list of parts with separators between them is read as, in front of a text that starts
  -- neither with the separator nor with what goes on.
  module _ (p : Reader A) (c : ℕ) (sep rest : Text) (ends : goes_on (c ∷ []) ≡ false)
      (stops : goes_on rest ≡ false) (no_more : expect (c ∷ sep) rest ≡ none) where
    pub read_list_lem :
        (t : Text) (ts : List Text) (a : A) (vs : List A) (fuel : ℕ)
        → ReadsAll p (t ∷ ts) (a ∷ vs)
        → length ts ≤ fuel
        → read_list p (c ∷ sep) (suc fuel) (join (c ∷ sep) (t ∷ ts) ++ rest) ≡ some (a ∷ vs, rest)
    unfolding join
    read_list_lem t [] a [] fuel (r, rs) le =
        one_read p (c ∷ sep) (t ++ rest) rest a fuel (r rest stops) no_more
    read_list_lem t [] a (b ∷ bs) fuel (r, rs) le = absurd rs
    read_list_lem t (u ∷ us) a [] fuel (r, rs) le = absurd rs
    read_list_lem t (u ∷ us) a (b ∷ bs) zero (r, rs) le = absurd (omega arith)
    read_list_lem t (u ∷ us) a (b ∷ bs) (suc fuel) (r, rs) le =
        let later = join (c ∷ sep) (u ∷ us) ++ rest in
        let here : ((t ++ (c ∷ sep)) ++ join (c ∷ sep) (u ∷ us)) ++ rest
            ≡ t ++ ((c ∷ sep) ++ later) =
          append_assoc (t ++ (c ∷ sep)) _ rest ∙ append_assoc t (c ∷ sep) later in
        more_read p (c ∷ sep) _ ((c ∷ sep) ++ later) later a (suc fuel)
          (ap p here ∙ r ((c ∷ sep) ++ later) ends) (expect-append (c ∷ sep) later)
        ∙ ap (preceded a) (read_list_lem u us b bs fuel rs (omega arith))

-- a separated list; it has no more parts than characters, and one
abbrev pub read_all : {A : Type 0} → Reader A → Text → Reader (List A)
read_all p sep s = read_list p sep (suc (length s)) s

length-join : (c : ℕ) (sep t : Text) (ts : List Text) → length ts ≤ length (join (c ∷ sep) (t ∷ ts))
unfolding join
length-join c sep t [] = omega arith
length-join c sep t (u ∷ us) = omega (
  arith,
  length-join c sep u us,
  length-append (t ++ (c ∷ sep)) (join (c ∷ sep) (u ∷ us)),
  length-append t (c ∷ sep),
)

pub read_all_lem :
    {A : Type 0} (p : Reader A) (c : ℕ) (sep rest : Text) (t : Text) (ts : List Text) (a : A)
    (vs : List A)
    → goes_on (c ∷ []) ≡ false
    → goes_on rest ≡ false
    → expect (c ∷ sep) rest ≡ none
    → ReadsAll p (t ∷ ts) (a ∷ vs)
    → read_all p (c ∷ sep) (join (c ∷ sep) (t ∷ ts) ++ rest) ≡ some (a ∷ vs, rest)
read_all_lem p c sep rest t ts a vs ends stops no_more rs =
    read_list_lem p c sep rest ends stops no_more t ts a vs _ rs
      (omega (arith, length-join c sep t ts, length-append (join (c ∷ sep) (t ∷ ts)) rest))
