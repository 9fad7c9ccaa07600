-- ===== src/Replication/Sql/Meaning/Builders.antt =====
-- What the builders put together, read back.
use mathlib.Core.List.{append_assoc, append-nil}
use cloud_comp_project.Base.{
  expect, expect-append, ℕ, suc, ◌+◌, ◌≡◌, refl, sym, ap, ◌∙◌, false, Bool-cases, inl, inr, Option,
  some, List, [], ◌∷◌, ◌++◌, map, Text, codes, join, length, is_empty, arith,
}
use cloud_comp_project.Interfaces.{Value, Row, Result, ok, err}
use cloud_comp_project.Replication.Sql.{
  SqlError, Statement, insert, sort, sorted_keys, lookup, inserted, build_insert_sql, joined,
  build_where_clause, updated, after_set, build_update_sql, deleted_sql, build_delete_sql,
}
use cloud_comp_project.Replication.Sql.Reading.Loops.{
  OnOk, ColumnsRead, PartsRead, Placed, pairs, insert_columns-OnOk, set_clauses-OnOk,
  set_clauses-length, where_parts-OnOk,
}
use cloud_comp_project.Replication.Sql.Reading.Parts.{read_assignment, read_condition}
use cloud_comp_project.Replication.Sql.Meaning.{
  Meaning, inserts, updates, deletes, zip, or_else, read_insert, read_update, read_delete,
  read_statement, insert_read, update_read, delete_read,
}

-- The statement says it of the table.
abbrev pub Says : Text → Meaning → Statement → Type 0
Says table m stmt = read_statement table stmt ≡ some m

insert_empty : (k : Text) (ks : List Text) → is_empty (insert k ks) ≡ false
unfolding insert
insert_empty k [] = refl
insert_empty k (l ∷ ls) = ground arith

sorted_keys_empty : (row : Row) → is_empty row ≡ false → is_empty (sorted_keys row) ≡ false
unfolding sorted_keys sort
sorted_keys_empty [] h = h
sorted_keys_empty ((k, v) ∷ row) h = insert_empty k _

map_empty :
    {A : Type 0} (f : Text → A) (ks : List Text) → is_empty ks ≡ false → is_empty (map f ks) ≡ false
map_empty f [] h = h
map_empty f (k ∷ ks) h = refl

zip-map : (get : Text → Value) (ks : List Text) → zip ks (map get ks) ≡ pairs get ks
zip-map get [] = refl
zip-map get (k ∷ ks) = ap (λ l. (k, get k) ∷ l) (zip-map get ks)

-- A text that is put together from the left, behind its start.
behind_five : (a b c d e : Text) → (((a ++ b) ++ c) ++ d) ++ e ≡ a ++ (b ++ (c ++ (d ++ e)))
behind_five a b c d e =
    append_assoc ((a ++ b) ++ c) d e
    ∙ append_assoc (a ++ b) c (d ++ e)
    ∙ append_assoc a b (c ++ (d ++ e))

behind_four : (a b c d : Text) → ((a ++ b) ++ c) ++ d ≡ a ++ (b ++ (c ++ d))
behind_four a b c d = append_assoc (a ++ b) c d ∙ append_assoc a b (c ++ d)

own-Placed : (args : List Value) → Placed 1 args args
own-Placed args = ([], [], refl, sym (append-nil args))

chosen :
    {A : Type 0} (o : Option Text) (s : Text) (f : Text → Option A) (other : Option A)
    → o ≡ some s
    → or_else o f other ≡ f s
chosen o s f other e = ap (λ x. or_else x f other) e

insert_statement :
    (table s : Text) (args : List Value)
    → read_statement table ((codes "INSERT INTO " ++ table ++ codes " (") ++ s, args)
      ≡ read_insert args s
unfolding read_statement
insert_statement table s args =
    chosen _ s (read_insert args) _ (expect-append (codes "INSERT INTO " ++ table ++ codes " (") s)

update_statement :
    (table s : Text) (args : List Value)
    → read_statement table ((codes "UPDATE " ++ table ++ codes " SET ") ++ s, args)
      ≡ read_update args s
unfolding read_statement expect codes
update_statement table s args =
    chosen _ s (read_update args) _ (expect-append (codes "UPDATE " ++ table ++ codes " SET ") s)

delete_statement :
    (table s : Text) (args : List Value)
    → read_statement table ((codes "DELETE FROM " ++ table ++ codes " WHERE ") ++ s, args)
      ≡ read_delete args s
unfolding read_statement expect codes
delete_statement table s args =
    chosen _ s (read_delete args) _
      (expect-append (codes "DELETE FROM " ++ table ++ codes " WHERE ") s)

inserted-Says :
    (table : Text) (get : Text → Value) (keys : List Text)
    (r : Result SqlError (List Text × List Text × List Value))
    → is_empty keys ≡ false
    → OnOk (ColumnsRead get 1 keys) r
    → OnOk (Says table (inserts (pairs get keys))) (inserted table r)
unfolding inserted
inserted-Says table get keys (err e) some_one h = tt
inserted-Says table get keys (ok (columns, marks, args)) some_one (named, marked) =
    ap (λ text. read_statement table (text, args))
      (behind_five (codes "INSERT INTO " ++ table ++ codes " (") (join (codes ", ") columns)
        (codes ") VALUES (") (join (codes ", ") marks) (codes ")"))
    ∙ insert_statement table _ args
    ∙ insert_read args columns marks keys (map get keys) some_one (map_empty get keys some_one)
        named (marked args (own-Placed args))
    ∙ ap (λ l. some (inserts l)) (zip-map get keys)

-- What an event says: the columns of a row in order, with their values.
abbrev pub entries : Row → List (Text × Value)
entries row = pairs (lookup row) (sorted_keys row)

entries_empty : (row : Row) → is_empty row ≡ false → is_empty (entries row) ≡ false
entries_empty row h = map_empty (λ k. (k, lookup row k)) (sorted_keys row) (sorted_keys_empty row h)

pub insert_sql-Says :
    (table : Text) (row : Row)
    → OnOk (Says table (inserts (entries row))) (build_insert_sql table row)
unfolding build_insert_sql
insert_sql-Says table row = elim (Bool-cases (is_empty row)) [
  | inl none_given ↦ rw none_given tt
  | inr some_given ↦ rw some_given (
      inserted-Says table (lookup row) (sorted_keys row) _ (sorted_keys_empty row some_given)
        (insert_columns-OnOk (lookup row) 1 (sorted_keys row)))
]

deleted-Says :
    (table : Text) (row : Row) (r : Result SqlError (List Text × List Value))
    → is_empty row ≡ false
    → OnOk (PartsRead (lookup row) read_condition 1 (sorted_keys row)) r
    → OnOk (Says table (deletes (entries row))) (deleted_sql table (joined r))
unfolding deleted_sql joined
deleted-Says table row (err e) h parts = tt
deleted-Says table row (ok (ts, args)) h parts =
    delete_statement table (join (codes " AND ") ts) args
    ∙ delete_read args ts (entries row) (entries_empty row h) (parts args (own-Placed args))

pub delete_sql-Says :
    (table : Text) (row : Row)
    → OnOk (Says table (deletes (entries row))) (build_delete_sql table row)
unfolding build_delete_sql build_where_clause
delete_sql-Says table row = elim (Bool-cases (is_empty row)) [
  | inl none_given ↦ rw none_given tt
  | inr some_given ↦
      rw some_given
        (deleted-Says table row _ some_given (where_parts-OnOk (lookup row) (sorted_keys row) 1))
]

updated-Says :
    (table : Text) (row predicate : Row) (clauses : List Text) (own : List Value) (next : ℕ)
    (r : Result SqlError (List Text × List Value))
    → is_empty row ≡ false
    → is_empty predicate ≡ false
    → next ≡ suc (length own)
    → PartsRead (lookup row) read_assignment 1 (sorted_keys row) (clauses, own)
    → OnOk (PartsRead (lookup predicate) read_condition next (sorted_keys predicate)) r
    → OnOk
        (Says table (updates (entries row) (entries predicate)))
        (updated table clauses own (joined r))
unfolding updated joined
updated-Says table row predicate clauses own next (err e) h h' n set parts = tt
updated-Says table row predicate clauses own next (ok (ts, args)) h h' n set parts =
    let placed = ap (λ l. own ++ l) (sym (append-nil args)) in
    ap (λ text. read_statement table (text, own ++ args))
      (behind_four (codes "UPDATE " ++ table ++ codes " SET ") (join (codes ", ") clauses)
        (codes " WHERE ") (join (codes " AND ") ts))
    ∙ update_statement table _ (own ++ args)
    ∙ update_read (own ++ args) clauses ts (entries row) (entries predicate) (entries_empty row h)
        (entries_empty predicate h') (set (own ++ args) ([], args, refl, refl))
        (parts (own ++ args) (own, [], n, placed))

set-Says :
    (table : Text) (row predicate : Row) (r : Result SqlError (List Text × List Value))
    → is_empty row ≡ false
    → is_empty predicate ≡ false
    → OnOk (PartsRead (lookup row) read_assignment 1 (sorted_keys row)) r
    → OnOk (λ (r : List Text × List Value). length r.1 ≡ length (sorted_keys row)) r
    → OnOk
        (Says table (updates (entries row) (entries predicate)))
        (after_set table predicate (1 + length (sorted_keys row)) r)
unfolding after_set build_where_clause
set-Says table row predicate (err e) h h' set counted = tt
set-Says table row predicate (ok (clauses, own)) h h' set counted =
    updated-Says table row predicate clauses own (1 + length (sorted_keys row)) _ h h'
      (omega (arith, counted)) set
      (where_parts-OnOk (lookup predicate) (sorted_keys predicate) (1 + length (sorted_keys row)))

pub update_sql-Says :
    (table : Text) (row predicate : Row)
    → OnOk
        (Says table (updates (entries row) (entries predicate)))
        (build_update_sql table row predicate)
unfolding build_update_sql
update_sql-Says table row predicate = elim (Bool-cases (is_empty row)) [
  | inl none_given ↦ rw none_given tt
  | inr some_given ↦ elim (Bool-cases (is_empty predicate)) [
    | inl none_given ↦ rw (some_given, none_given) tt
    | inr both ↦
        rw (some_given, both)
          (set-Says table row predicate _ some_given both
            (set_clauses-OnOk (lookup row) 1 (sorted_keys row))
            (set_clauses-length (lookup row) 1 (sorted_keys row)))
  ]
]
