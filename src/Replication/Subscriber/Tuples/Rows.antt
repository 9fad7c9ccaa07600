-- ===== src/Replication/Subscriber/Tuples/Rows.antt =====
-- state-sync-engine/internal/replication/subscriber.go: the rows that `extractTuple` makes.
use mathlib.Core.List.{append-nil, append_assoc}
use cloud_comp_project.Base.{
  ℕ, ◌≡◌, refl, sym, ap, ◌∙◌, false, some, List, [], ◌∷◌, ◌++◌, map, ◌+◌, Text, text_eq, is_blank,
}
use cloud_comp_project.Interfaces.{Value, Row}
use cloud_comp_project.Replication.Subscriber.Tuples.{
  TupleColumn, set_value, name_at, column_value, extract_columns, extract_tuple,
}

-- The name is none of the others.
abbrev pub IsNew : Text → List Text → Type 0
IsNew name [] = Unit
IsNew name (x ∷ xs) = (text_eq name x ≡ false) × IsNew name xs

-- There is a name for each column; the names are different, and none is blank.
abbrev pub AreNames : List Text → List TupleColumn → Type 0
AreNames [] [] = Unit
AreNames [] (c ∷ cs) = ⊥
AreNames (x ∷ xs) [] = ⊥
AreNames (x ∷ xs) (c ∷ cs) = (is_blank x ≡ false) × IsNew x xs × AreNames xs cs

-- each column's value under its name
abbrev pub named : List Text → List TupleColumn → Row
named (x ∷ xs) (c ∷ cs) = (x, column_value c) ∷ named xs cs
named [] cs = []
named (x ∷ xs) [] = []

-- No key of the row is among the names.
abbrev AreUnused : Row → List Text → Type 0
AreUnused [] xs = Unit
AreUnused ((k, v) ∷ row) xs = IsNew k xs × AreUnused row xs

set_value-append :
    (row : Row) (x : Text) (xs : List Text) (v : Value)
    → AreUnused row (x ∷ xs)
    → set_value x v row ≡ row ++ (x, v) ∷ []
unfolding set_value
set_value-append [] x xs v h = refl
set_value-append ((k, u) ∷ row) x xs v ((other, later), h) =
    rw other (ap (λ r. (k, u) ∷ r) (set_value-append row x xs v h))

append-AreUnused :
    (row : Row) (x : Text) (xs : List Text) (v : Value)
    → AreUnused row (x ∷ xs)
    → IsNew x xs
    → AreUnused (row ++ (x, v) ∷ []) xs
append-AreUnused [] x xs v h new = (new, tt)
append-AreUnused ((k, u) ∷ row) x xs v ((other, later), h) new =
    (later, append-AreUnused row x xs v h new)

name_at-known : (i : ℕ) (x : Text) (xs : List Text) → is_blank x ≡ false → name_at i (x ∷ xs) ≡ x
unfolding name_at
name_at-known i x xs h = rw h refl

extract_columns-named :
    (i : ℕ) (names : List Text) (cs : List TupleColumn) (row : Row)
    → AreNames names cs
    → AreUnused row names
    → extract_columns i names (map (λ c. some c) cs) row ≡ row ++ named names cs
unfolding extract_columns
extract_columns-named i [] [] row h unused = sym (append-nil row)
extract_columns-named i [] (c ∷ cs) row h unused = absurd h
extract_columns-named i (x ∷ xs) [] row h unused = absurd h
extract_columns-named i (x ∷ xs) (c ∷ cs) row (full, new, h) unused =
    let v = column_value c in
    ap (λ name. extract_columns (i + 1) xs (map (λ c. some c) cs) (set_value name v row))
      (name_at-known i x xs full)
    ∙ ap (extract_columns (i + 1) xs (map (λ c. some c) cs)) (set_value-append row x xs v unused)
    ∙ extract_columns-named (i + 1) xs cs (row ++ (x, v) ∷ []) h
        (append-AreUnused row x xs v unused new)
    ∙ append_assoc row ((x, v) ∷ []) (named xs cs)

-- If the relation has a name for each column of the tuple, and the names are different and not
-- blank, then the row has exactly the values of the columns under the names of the columns.
pub extract_tuple-named :
    (names : List Text) (cs : List TupleColumn)
    → AreNames names cs
    → extract_tuple (some (map (λ c. some c) cs)) names ≡ named names cs
unfolding extract_tuple
extract_tuple-named names cs h = extract_columns-named 0 names cs [] h tt
