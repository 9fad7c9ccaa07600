-- ===== src/Replication/Sql/Reading/Parts.antt =====
-- Assignments and conditions, as the parts of statements, are read back.
use mathlib.Core.List.{append_assoc}
use cloud_comp_project.Base.{
  expect, expect-append, ℕ, ◌≡◌, refl, ap, ◌∙◌, false, Option, none, some, List, [], ◌∷◌, ◌++◌,
  Text, codes, arith,
}
use cloud_comp_project.Interfaces.{Value, null, string}
use cloud_comp_project.Replication.Identifier.{quote_identifier}
use cloud_comp_project.Replication.Identifier.Scan.{
  scan_identifier, quote_identifier-scan, quote_next,
}
use cloud_comp_project.Replication.Sql.{placeholder, assigned, is_null}
use cloud_comp_project.Replication.Sql.Reading.{Reader, Reads, goes_on}
use cloud_comp_project.Replication.Sql.Reading.Numbers.{read_parameter}

abbrev with_column : Text → Option (Value × Text) → Option ((Text × Value) × Text)
with_column k none = none
with_column k (some (v, rest)) = some ((k, v), rest)

abbrev then_value : List Value → Text → Option Text → Option ((Text × Value) × Text)
then_value args k none = none
then_value args k (some s) = with_column k (read_parameter args s)

abbrev after_column : List Value → Option (Text × Text) → Option ((Text × Value) × Text)
after_column args none = none
after_column args (some (k, s)) = then_value args k (expect (codes " = ") s)

-- `"column" = $n`
pub read_assignment : List Value → Reader (Text × Value)
read_assignment args s = after_column args (scan_identifier s)

-- A comparison with a null holds for no row, whatever the column has, so it is none with the value.
abbrev compared : Text → Option (Value × Text) → Option ((Text × Value) × Text)
compared k none = none
compared k (some (null, rest)) = none
compared k (some (string t, rest)) = some ((k, string t), rest)

abbrev then_compared : List Value → Text → Option Text → Option ((Text × Value) × Text)
then_compared args k none = none
then_compared args k (some s) = compared k (read_parameter args s)

abbrev or_value : List Value → Text → Text → Option Text → Option ((Text × Value) × Text)
or_value args k s none = then_compared args k (expect (codes " = ") s)
or_value args k s (some rest) = some ((k, null), rest)

abbrev after_name : List Value → Option (Text × Text) → Option ((Text × Value) × Text)
after_name args none = none
after_name args (some (k, s)) = or_value args k s (expect (codes " IS NULL") s)

-- A condition on a column that holds for a value and for no other: `"column" IS NULL` for the null,
-- or `"column" = $n` for an argument that is no null.
pub read_condition : List Value → Reader (Text × Value)
read_condition args s = after_name args (scan_identifier s)

not_quote : (rest : Text) → goes_on rest ≡ false → quote_next rest ≡ false
not_quote [] h = refl
not_quote (c ∷ s) h = ground arith

pub quote_identifier-Reads : (k : Text) → Reads scan_identifier (quote_identifier k) k
quote_identifier-Reads k rest h = quote_identifier-scan k rest (not_quote rest h)

-- the name at the start of an assignment
name_read :
    (k : Text) (n : ℕ) (rest : Text)
    → scan_identifier (assigned k n ++ rest) ≡ some (k, codes " = " ++ (placeholder n ++ rest))
unfolding assigned codes
name_read k n rest =
    let s = placeholder n ++ rest in
    ap scan_identifier (
      append_assoc (quote_identifier k ++ codes " = ") (placeholder n) rest
      ∙ append_assoc (quote_identifier k) (codes " = ") s)
    ∙ quote_identifier-scan k (codes " = " ++ s) refl

value_read :
    (args : List Value) (k : Text) (n : ℕ) (v : Value) (rest : Text)
    → Reads (read_parameter args) (placeholder n) v
    → goes_on rest ≡ false
    → then_value args k (expect (codes " = ") (codes " = " ++ (placeholder n ++ rest)))
      ≡ some ((k, v), rest)
value_read args k n v rest r h =
    ap (then_value args k) (expect-append (codes " = ") (placeholder n ++ rest))
    ∙ ap (with_column k) (r rest h)

pub assigned-Reads :
    (args : List Value) (k : Text) (n : ℕ) (v : Value)
    → Reads (read_parameter args) (placeholder n) v
    → Reads (read_assignment args) (assigned k n) (k, v)
unfolding read_assignment
assigned-Reads args k n v r rest h =
    ap (after_column args) (name_read k n rest) ∙ value_read args k n v rest r h

pub condition-Reads :
    (args : List Value) (k : Text) (n : ℕ) (t : Text)
    → Reads (read_parameter args) (placeholder n) (string t)
    → Reads (read_condition args) (assigned k n) (k, string t)
unfolding read_condition expect codes
condition-Reads args k n t r rest h =
    ap (after_name args) (name_read k n rest)
    ∙ ap (then_compared args k) (expect-append (codes " = ") (placeholder n ++ rest))
    ∙ ap (compared k) (r rest h)

pub is_null-Reads :
    (args : List Value) (k : Text) → Reads (read_condition args) (is_null k) (k, null)
unfolding read_condition is_null codes
is_null-Reads args k rest h =
    ap (after_name args) (
      ap scan_identifier (append_assoc (quote_identifier k) (codes " IS NULL") rest)
      ∙ quote_identifier-scan k (codes " IS NULL" ++ rest) refl)
    ∙ ap (or_value args k (codes " IS NULL" ++ rest)) (expect-append (codes " IS NULL") rest)
