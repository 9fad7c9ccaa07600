-- ===== src/Replication/Sql/Reading/Loops.antt =====
-- What the loops of the builders put together is read back as the keys with their values.
use mathlib.Core.List.{append_assoc}
use cloud_comp_project.Base.{
  ℕ, suc, ◌+◌, ◌≡◌, refl, sym, ◌∙◌, Bool, true, false, List, [], ◌∷◌, ◌++◌, map, Text, length,
  length-append, arith, if◌then◌else◌,
}
use cloud_comp_project.Interfaces.{Value, null, string, Result, ok, err}
use cloud_comp_project.Replication.Identifier.{is_safe_identifier, quote_identifier}
use cloud_comp_project.Replication.Identifier.Scan.{scan_identifier}
use cloud_comp_project.Replication.Sql.{
  SqlError, placeholder, assigned, then_column, insert_columns, then_part, set_clauses, where_part,
  where_parts,
}
use cloud_comp_project.Replication.Sql.Reading.{Reader, Reads, ReadsAll}
use cloud_comp_project.Replication.Sql.Reading.Numbers.{read_parameter, placeholder-Reads}
use cloud_comp_project.Replication.Sql.Reading.Parts.{
  read_assignment, read_condition, quote_identifier-Reads, assigned-Reads, condition-Reads,
  is_null-Reads,
}

-- `P` holds of the result, if there is one.
abbrev pub OnOk : {E A : Type 0} → (A → Type 0) → Result E A → Type 0
OnOk P (ok a) = P a
OnOk P (err e) = Unit

abbrev pub pairs : (Text → Value) → List Text → List (Text × Value)
pairs get keys = map (λ k. (k, get k)) keys

-- The arguments `own` of a part that starts at the number `n` stand there among all arguments.
abbrev pub Placed : ℕ → List Value → List Value → Type 0
Placed n own args =
    (before after : List Value) × (n ≡ suc (length before)) × (args ≡ before ++ (own ++ after))

-- In front of `later` stands one argument, or none.
later-Placed :
    (n : ℕ) (v : Value) (later args : List Value)
    → Placed n (v ∷ later) args
    → Placed (n + 1) later args
later-Placed n v later args (before, after, e, all) = (
  before ++ v ∷ [],
  after,
  omega (arith, e, length-append before (v ∷ [])),
  all ∙ sym (append_assoc before (v ∷ []) (later ++ after)),
)

first-Placed :
    (n : ℕ) (v : Value) (later args : List Value)
    → Placed n (v ∷ later) args
    → Reads (read_parameter args) (placeholder n) v
first-Placed n v later args (before, after, e, all) =
    rw (e, all) (placeholder-Reads before (later ++ after) v)

module _ (get : Text → Value) where
  abbrev pub ColumnsRead : ℕ → List Text → List Text × List Text × List Value → Type 0
  ColumnsRead n keys r =
      ReadsAll scan_identifier r.0 keys
      × ((args : List Value)
          → Placed n r.2 args
          → ReadsAll (read_parameter args) r.1 (map get keys))

  columns_step :
      (b : Bool) (n : ℕ) (k : Text) (keys : List Text) (x : SqlError)
      (rest : Result SqlError (List Text × List Text × List Value))
      → OnOk (ColumnsRead (n + 1) keys) rest
      → OnOk
          (ColumnsRead n (k ∷ keys))
          (if b then then_column (quote_identifier k) (placeholder n) (get k) rest else err x)
  unfolding then_column
  columns_step false n k keys x rest h = tt
  columns_step true n k keys x (err e) h = tt
  columns_step true n k keys x (ok (columns, marks, later)) (names, marked) = (
    (quote_identifier-Reads k, names),
    λ args placed. (
      first-Placed n (get k) later args placed,
      marked args (later-Placed n (get k) later args placed),
    ),
  )

  pub insert_columns-OnOk :
      (n : ℕ) (keys : List Text) → OnOk (ColumnsRead n keys) (insert_columns get n keys)
  unfolding insert_columns
  insert_columns-OnOk n [] = (tt, λ args placed. tt)
  insert_columns-OnOk n (k ∷ keys) =
      columns_step (is_safe_identifier k) n k keys _ (insert_columns get (n + 1) keys)
        (insert_columns-OnOk (n + 1) keys)

  abbrev pub PartsRead :
      (List Value → Reader (Text × Value)) → ℕ → List Text → List Text × List Value → Type 0
  PartsRead p n keys r =
      (args : List Value) → Placed n r.1 args → ReadsAll (p args) r.0 (pairs get keys)

  set_step :
      (b : Bool) (n : ℕ) (k : Text) (keys : List Text) (x : SqlError)
      (rest : Result SqlError (List Text × List Value))
      → OnOk (PartsRead read_assignment (n + 1) keys) rest
      → OnOk
          (PartsRead read_assignment n (k ∷ keys))
          (if b then then_part (assigned k n) (get k ∷ []) rest else err x)
  unfolding then_part
  set_step false n k keys x rest h = tt
  set_step true n k keys x (err e) h = tt
  set_step true n k keys x (ok (parts, later)) h = λ args placed. (
    assigned-Reads args k n (get k) (first-Placed n (get k) later args placed),
    h args (later-Placed n (get k) later args placed),
  )

  pub set_clauses-OnOk :
      (n : ℕ) (keys : List Text) → OnOk (PartsRead read_assignment n keys) (set_clauses get n keys)
  unfolding set_clauses
  set_clauses-OnOk n [] = λ args placed. tt
  set_clauses-OnOk n (k ∷ keys) =
      set_step (is_safe_identifier k) n k keys _ (set_clauses get (n + 1) keys)
        (set_clauses-OnOk (n + 1) keys)

  counted_step :
      (b : Bool) (part : Text) (v : Value) (n : ℕ) (x : SqlError)
      (rest : Result SqlError (List Text × List Value))
      → OnOk (λ (r : List Text × List Value). length r.1 ≡ n) rest
      → OnOk
          (λ (r : List Text × List Value). length r.1 ≡ suc n)
          (if b then then_part part (v ∷ []) rest else err x)
  unfolding then_part
  counted_step false part v n x rest h = tt
  counted_step true part v n x (err e) h = tt
  counted_step true part v n x (ok (parts, later)) h = omega (arith, h)

  -- Each clause of SET has one argument.
  pub set_clauses-length :
      (n : ℕ) (keys : List Text)
      → OnOk (λ (r : List Text × List Value). length r.1 ≡ length keys) (set_clauses get n keys)
  unfolding set_clauses
  set_clauses-length n [] = refl
  set_clauses-length n (k ∷ keys) =
      counted_step (is_safe_identifier k) (assigned k n) (get k) (length keys) _ _
        (set_clauses-length (n + 1) keys)

  where_step :
      (b : Bool) (n : ℕ) (k : Text) (v : Value) (keys : List Text) (x : SqlError)
      → get k ≡ v
      → let (next, part, values) = where_part k v n in
        (rest : Result SqlError (List Text × List Value))
        → OnOk (PartsRead read_condition next keys) rest
        → OnOk
            (PartsRead read_condition n (k ∷ keys))
            (if b then then_part part values rest else err x)
  unfolding then_part where_part
  where_step false n k null keys x e rest h = tt
  where_step false n k (string s) keys x e rest h = tt
  where_step true n k null keys x e (err y) h = tt
  where_step true n k (string s) keys x e (err y) h = tt
  where_step true n k null keys x e (ok (parts, later)) h =
      λ args placed. (rw e (is_null-Reads args k), h args placed)
  where_step true n k (string s) keys x e (ok (parts, later)) h = λ args placed. (
    rw e (condition-Reads args k n s (first-Placed n (string s) later args placed)),
    h args (later-Placed n (string s) later args placed),
  )

  pub where_parts-OnOk :
      (keys : List Text) (n : ℕ) → OnOk (PartsRead read_condition n keys) (where_parts get n keys)
  unfolding where_parts
  where_parts-OnOk [] n = λ args placed. tt
  where_parts-OnOk (k ∷ keys) n =
      where_step (is_safe_identifier k) n k (get k) keys _ refl _
        (where_parts-OnOk keys (where_part k (get k) n).0)
