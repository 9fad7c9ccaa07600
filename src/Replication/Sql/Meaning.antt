-- ===== src/Replication/Sql/Meaning.antt =====
-- What a statement says, by a reader of its text, and that the statement for an event says what the
-- event does.
pub mod Builders
pub mod Entries
pub mod Events
use mathlib.Core.List.{append_assoc, append-nil}
use cloud_comp_project.Base.{
  expect, expect-append, ℕ, suc, ◌+◌, ◌≡◌, ◌≢◌, refl, sym, ap, ◌∙◌, subst, Bool, true, false,
  Bool-cases, inl, inr, Option, none, some, List, [], ◌∷◌, ◌++◌, map, Text, codes, join, length,
  length-append, is_empty, arith, if◌then◌else◌,
}
use cloud_comp_project.Interfaces.{
  Value, Row, ChangeEvent, Operation, operation_insert, operation_update, operation_delete,
  operation_other, Result, ok, err,
}
use cloud_comp_project.Replication.Identifier.{quote_qualified_table}
use cloud_comp_project.Replication.Identifier.Scan.{scan_identifier}
use cloud_comp_project.Replication.Sql.{
  SqlError, Statement, insert, sort, sorted_keys, lookup, insert_columns, inserted,
  build_insert_sql, set_clauses, where_parts, joined, build_where_clause, updated, after_set,
  build_update_sql, deleted_sql, build_delete_sql, choose_predicate_row, statement_for, after_table,
  build_dml,
}
use cloud_comp_project.Replication.Sql.Reading.{Reader, ReadsAll, goes_on, read_all, read_all_lem}
use cloud_comp_project.Replication.Sql.Reading.Numbers.{read_parameter}
use cloud_comp_project.Replication.Sql.Reading.Parts.{read_assignment, read_condition}
use cloud_comp_project.Replication.Sql.Reading.Loops.{
  OnOk, Placed, pairs, insert_columns-OnOk, set_clauses-OnOk, where_parts-OnOk,
}

-- A row to insert; values to set in the rows that meet the conditions; rows to delete.
pub data Meaning : Type 0 where
  inserts : List (Text × Value) → Meaning
  updates : List (Text × Value) → List (Text × Value) → Meaning
  deletes : List (Text × Value) → Meaning

abbrev at_end : {A : Type 0} → A → Text → Option A
at_end a [] = some a
at_end a (c ∷ s) = none

abbrev pub zip : List Text → List Value → List (Text × Value)
zip [] vs = []
zip (k ∷ ks) [] = []
zip (k ∷ ks) (v ∷ vs) = (k, v) ∷ zip ks vs

abbrev close_row : List Text → List Value → Option Text → Option Meaning
close_row ks vs none = none
close_row ks vs (some s) = at_end (inserts (zip ks vs)) s

row_values : List Text → Option (List Value × Text) → Option Meaning
unfolding codes
row_values ks none = none
row_values ks (some (vs, s)) = close_row ks vs (expect (codes ")") s)

values_of : List Value → List Text → Option Text → Option Meaning
unfolding codes row_values
values_of args ks none = none
values_of args ks (some s) = row_values ks (read_all (read_parameter args) (codes ", ") s)

columns_of : List Value → Option (List Text × Text) → Option Meaning
unfolding codes values_of
columns_of args none = none
columns_of args (some (ks, s)) = values_of args ks (expect (codes ") VALUES (") s)

read_insert : List Value → Text → Option Meaning
unfolding codes columns_of
read_insert args s = columns_of args (read_all scan_identifier (codes ", ") s)

abbrev all_conditions : Option (List (Text × Value) × Text) → Option (List (Text × Value))
all_conditions none = none
all_conditions (some (vs, s)) = at_end vs s

read_conditions : List Value → Text → Option (List (Text × Value))
unfolding codes
read_conditions args s = all_conditions (read_all (read_condition args) (codes " AND ") s)

abbrev updated_where : List (Text × Value) → Option (List (Text × Value)) → Option Meaning
updated_where sets none = none
updated_where sets (some conditions) = some (updates sets conditions)

abbrev where_of : List Value → List (Text × Value) → Option Text → Option Meaning
where_of args sets none = none
where_of args sets (some s) = updated_where sets (read_conditions args s)

assignments_of : List Value → Option (List (Text × Value) × Text) → Option Meaning
unfolding codes
assignments_of args none = none
assignments_of args (some (sets, s)) = where_of args sets (expect (codes " WHERE ") s)

read_update : List Value → Text → Option Meaning
unfolding codes assignments_of
read_update args s = assignments_of args (read_all (read_assignment args) (codes ", ") s)

abbrev deleted_where : Option (List (Text × Value)) → Option Meaning
deleted_where none = none
deleted_where (some conditions) = some (deletes conditions)

read_delete : List Value → Text → Option Meaning
read_delete args s = deleted_where (read_conditions args s)

abbrev pub or_else : {A : Type 0} → Option Text → (Text → Option A) → Option A → Option A
or_else none f other = other
or_else (some s) f other = f s

-- A statement on a table, whose name is written as given: what it says, its placeholders standing
-- for their values.
pub read_statement : Text → Statement → Option Meaning
unfolding codes
read_statement table (query, args) =
    or_else (expect (codes "INSERT INTO " ++ table ++ codes " (") query) (read_insert args) (
      or_else (expect (codes "UPDATE " ++ table ++ codes " SET ") query) (read_update args) (
        or_else (expect (codes "DELETE FROM " ++ table ++ codes " WHERE ") query) (read_delete args)
          none))

-- What an event says: the columns in order, with their values.
abbrev entries : Row → List (Text × Value)
entries row = pairs (lookup row) (sorted_keys row)

all_read :
    {A : Type 0} (p : Reader A) (c : ℕ) (sep rest : Text) (ts : List Text) (vs : List A)
    → is_empty vs ≡ false
    → goes_on (c ∷ []) ≡ false
    → goes_on rest ≡ false
    → expect (c ∷ sep) rest ≡ none
    → ReadsAll p ts vs
    → read_all p (c ∷ sep) (join (c ∷ sep) ts ++ rest) ≡ some (vs, rest)
all_read p c sep rest [] [] some_one ends stops no_more rs = cc
all_read p c sep rest [] (a ∷ vs) some_one ends stops no_more rs = absurd rs
all_read p c sep rest (t ∷ ts) [] some_one ends stops no_more rs = cc
all_read p c sep rest (t ∷ ts) (a ∷ vs) some_one ends stops no_more rs =
    read_all_lem p c sep rest t ts a vs ends stops no_more rs

insert_read :
    (args : List Value) (columns marks : List Text) (ks : List Text) (vs : List Value)
    → is_empty ks ≡ false
    → is_empty vs ≡ false
    → ReadsAll scan_identifier columns ks
    → ReadsAll (read_parameter args) marks vs
    → read_insert args (
        join (codes ", ") columns ++ (codes ") VALUES (" ++ (join (codes ", ") marks ++ codes ")")))
      ≡ some (inserts (zip ks vs))
unfolding read_insert columns_of values_of row_values codes expect
insert_read args columns marks ks vs e e' named marked =
    let tail = join (codes ", ") marks ++ codes ")" in
    ap (columns_of args) (
      all_read scan_identifier 44 (32 ∷ []) (codes ") VALUES (" ++ tail) columns ks e refl refl refl
        named)
    ∙ ap (values_of args ks) (expect-append (codes ") VALUES (") tail)
    ∙ ap (row_values ks)
        (all_read (read_parameter args) 44 (32 ∷ []) (codes ")") marks vs e' refl refl refl marked)

conditions_read :
    (args : List Value) (parts : List Text) (vs : List (Text × Value))
    → is_empty vs ≡ false
    → ReadsAll (read_condition args) parts vs
    → read_conditions args (join (codes " AND ") parts) ≡ some vs
unfolding read_conditions codes expect
conditions_read args parts vs e rs =
    ap (read_conditions args) (sym (append-nil (join (codes " AND ") parts)))
    ∙ ap all_conditions
        (all_read (read_condition args) 32 (codes "AND ") [] parts vs e refl refl refl rs)

update_read :
    (args : List Value) (clauses parts : List Text) (sets conditions : List (Text × Value))
    → is_empty sets ≡ false
    → is_empty conditions ≡ false
    → ReadsAll (read_assignment args) clauses sets
    → ReadsAll (read_condition args) parts conditions
    → read_update args
        (join (codes ", ") clauses ++ (codes " WHERE " ++ join (codes " AND ") parts))
      ≡ some (updates sets conditions)
unfolding read_update assignments_of codes expect
update_read args clauses parts sets conditions e e' rs qs =
    let tail = join (codes " AND ") parts in
    ap (assignments_of args) (
      all_read (read_assignment args) 44 (32 ∷ []) (codes " WHERE " ++ tail) clauses sets e refl
        refl refl rs)
    ∙ ap (where_of args sets) (expect-append (codes " WHERE ") tail)
    ∙ ap (updated_where sets) (conditions_read args parts conditions e' qs)

delete_read :
    (args : List Value) (parts : List Text) (conditions : List (Text × Value))
    → is_empty conditions ≡ false
    → ReadsAll (read_condition args) parts conditions
    → read_delete args (join (codes " AND ") parts) ≡ some (deletes conditions)
unfolding read_delete
delete_read args parts conditions e qs =
    ap deleted_where (conditions_read args parts conditions e qs)
