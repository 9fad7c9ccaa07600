-- ===== src/Replication/Sql.antt =====
-- state-sync-engine/internal/replication/publisher.go: the statement for a change event. A
-- placeholder's number counts up from 1, so it is a natural number.
pub mod Order
pub mod Reading
pub mod Meaning
pub mod Rows
use cloud_comp_project.Base.{
  ℕ, ◌+◌, Bool, true, false, ◌&&◌, ◌||◌, ◌==◌, ltb, List, [], ◌∷◌, ◌++◌, map, Text, text_eq, codes,
  join, decimal, is_empty, length, if◌then◌else◌,
}
use cloud_comp_project.Interfaces.{
  Operation, operation_insert, operation_update, operation_delete, operation_other, Value, null,
  string, Row, ChangeEvent, Result, ok, err,
}
use cloud_comp_project.Replication.Identifier.{
  is_safe_identifier, quote_identifier, quote_qualified_table,
}

pub data SqlError : Type 0 where
  invalid_table : Text → SqlError
  unsupported_operation : Text → SqlError
  insert_missing_new_row update_missing_new_row : SqlError
  update_missing_predicate delete_missing_predicate : SqlError
  invalid_column : Text → SqlError

-- The text of a statement, and the values of its placeholders.
abbrev pub Statement : Type 0
Statement = Text × List Value

-- `s <= t`, for the order in which `sort.Strings` puts them. The order of the code points is that
-- of the bytes of their encodings.
unfoldable pub text_leb : Text → Text → Bool
text_leb [] t = true
text_leb (a ∷ s) [] = false
text_leb (a ∷ s) (b ∷ t) = ltb a b || (a == b && text_leb s t)

unfoldable pub insert : Text → List Text → List Text
unfolding text_leb
insert k [] = k ∷ []
insert k (l ∷ ls) = let rest = insert k ls in if text_leb k l then k ∷ l ∷ ls else l ∷ rest

-- `sort.Strings`
unfoldable pub sort : List Text → List Text
unfolding insert
sort [] = []
sort (k ∷ ks) = insert k (sort ks)

-- `sortedKeys`
unfoldable pub sorted_keys : Row → List Text
unfolding sort
sorted_keys row = sort (map (λ entry. entry.0) row)

-- `row[key]`
unfoldable pub lookup : Row → Text → Value
lookup [] key = null
lookup ((k, v) ∷ row) key = let later = lookup row key in if text_eq k key then v else later

-- `fmt.Sprintf("$%d", n)`
pub placeholder : ℕ → Text
unfolding decimal codes
placeholder n = codes "$" ++ decimal n

-- `fmt.Sprintf("%s = $%d", quoteIdentifier(key), n)`
pub assigned : Text → ℕ → Text
unfolding quote_identifier placeholder codes
assigned key n = quote_identifier key ++ codes " = " ++ placeholder n

-- `fmt.Sprintf("%s IS NULL", quoteIdentifier(key))`
pub is_null : Text → Text
unfolding quote_identifier codes
is_null key = quote_identifier key ++ codes " IS NULL"

pub then_column :
    Text
    → Text
    → Value
    → Result SqlError (List Text × List Text × List Value)
    → Result SqlError (List Text × List Text × List Value)
then_column column mark value (err e) = err e
then_column column mark value (ok (columns, marks, args)) =
    ok (column ∷ columns, mark ∷ marks, value ∷ args)

-- The loop of `buildInsertSQL`, at the index `n - 1`: the columns, the placeholders and the
-- arguments. `get key` is `row[key]`.
pub insert_columns :
    (Text → Value) → ℕ → List Text → Result SqlError (List Text × List Text × List Value)
unfolding then_column is_safe_identifier quote_identifier placeholder
insert_columns get n [] = ok ([], [], [])
insert_columns get n (key ∷ keys) =
    let rest = insert_columns get (n + 1) keys in
    if is_safe_identifier key
    then then_column (quote_identifier key) (placeholder n) (get key) rest
    else err (invalid_column key)

pub then_part :
    Text
    → List Value
    → Result SqlError (List Text × List Value)
    → Result SqlError (List Text × List Value)
then_part part values (err e) = err e
then_part part values (ok (parts, args)) = ok (part ∷ parts, values ++ args)

-- The loop of `buildUpdateSQL`, for the clauses of SET.
pub set_clauses : (Text → Value) → ℕ → List Text → Result SqlError (List Text × List Value)
unfolding then_part is_safe_identifier assigned
set_clauses get n [] = ok ([], [])
set_clauses get n (key ∷ keys) =
    let rest = set_clauses get (n + 1) keys in
    if is_safe_identifier key
    then then_part (assigned key n) (get key ∷ []) rest
    else err (invalid_column key)

-- The part of `buildWhereClause` for a key and its value, with the next number, the clause and the
-- arguments.
pub where_part : Text → Value → ℕ → ℕ × Text × List Value
unfolding assigned is_null
where_part key null n = (n, is_null key, [])
where_part key (string s) n = (n + 1, assigned key n, string s ∷ [])

-- The loop of `buildWhereClause`.
pub where_parts : (Text → Value) → ℕ → List Text → Result SqlError (List Text × List Value)
unfolding then_part is_safe_identifier where_part
where_parts get n [] = ok ([], [])
where_parts get n (key ∷ keys) =
    let (next, part, values) = where_part key (get key) n in
    let rest = where_parts get next keys in
    if is_safe_identifier key then then_part part values rest else err (invalid_column key)

pub joined : Result SqlError (List Text × List Value) → Result SqlError Statement
unfolding codes join
joined (err e) = err e
joined (ok (parts, args)) = ok (join (codes " AND ") parts, args)

-- `buildWhereClause`
unfoldable pub build_where_clause : Row → ℕ → Result SqlError Statement
unfolding sorted_keys lookup joined where_parts
build_where_clause predicate start =
    joined (where_parts (lookup predicate) start (sorted_keys predicate))

pub inserted :
    Text → Result SqlError (List Text × List Text × List Value) → Result SqlError Statement
unfolding codes join
inserted table (err e) = err e
inserted table (ok (columns, marks, args)) = ok (
  codes "INSERT INTO "
      ++ table
      ++ codes " ("
      ++ join (codes ", ") columns
      ++ codes ") VALUES ("
      ++ join (codes ", ") marks
      ++ codes ")",
  args,
)

-- `buildInsertSQL`
unfoldable pub build_insert_sql : Text → Row → Result SqlError Statement
unfolding sorted_keys lookup inserted insert_columns
build_insert_sql table row =
    if is_empty row
    then err insert_missing_new_row
    else inserted table (insert_columns (lookup row) 1 (sorted_keys row))

pub updated : Text → List Text → List Value → Result SqlError Statement → Result SqlError Statement
unfolding codes join
updated table clauses args (err e) = err e
updated table clauses args (ok (where_clause, where_args)) = ok (
  codes "UPDATE "
      ++ table
      ++ codes " SET "
      ++ join (codes ", ") clauses
      ++ codes " WHERE "
      ++ where_clause,
  args ++ where_args,
)

-- the rest of `buildUpdateSQL` after its loop; `next` is the next number
pub after_set :
    Text → Row → ℕ → Result SqlError (List Text × List Value) → Result SqlError Statement
unfolding updated build_where_clause
after_set table predicate next (err e) = err e
after_set table predicate next (ok (clauses, args)) =
    updated table clauses args (build_where_clause predicate next)

-- `buildUpdateSQL`. The loop over the keys has used a number for each.
unfoldable pub build_update_sql : Text → Row → Row → Result SqlError Statement
unfolding sorted_keys lookup after_set set_clauses
build_update_sql table new_row predicate =
    let keys = sorted_keys new_row in
    if is_empty new_row
    then err update_missing_new_row
    else if is_empty predicate
    then err update_missing_predicate
    else after_set table predicate (1 + length keys) (set_clauses (lookup new_row) 1 keys)

pub deleted_sql : Text → Result SqlError Statement → Result SqlError Statement
unfolding codes
deleted_sql table (err e) = err e
deleted_sql table (ok (where_clause, args)) =
    ok (codes "DELETE FROM " ++ table ++ codes " WHERE " ++ where_clause, args)

-- `buildDeleteSQL`
unfoldable pub build_delete_sql : Text → Row → Result SqlError Statement
unfolding deleted_sql build_where_clause
build_delete_sql table predicate =
    if is_empty predicate
    then err delete_missing_predicate
    else deleted_sql table (build_where_clause predicate 1)

-- `choosePredicateRow`
unfoldable pub choose_predicate_row : Row → Row → Row
choose_predicate_row old_row fallback = if is_empty old_row then fallback else old_row

-- the branches of `buildDML` on the operation, for the quoted table
pub statement_for : Text → Operation → Row → Row → Result SqlError Statement
unfolding build_insert_sql build_update_sql build_delete_sql choose_predicate_row
statement_for table operation_insert old_row new_row = build_insert_sql table new_row
statement_for table operation_update old_row new_row =
    build_update_sql table new_row (choose_predicate_row old_row new_row)
statement_for table operation_delete old_row new_row =
    build_delete_sql table (choose_predicate_row old_row new_row)
statement_for table (operation_other op) old_row new_row = err (unsupported_operation op)

pub after_table : ChangeEvent → Result Text Text → Result SqlError Statement
unfolding statement_for
after_table event (err name) = err (invalid_table name)
after_table event (ok table) = statement_for table event.operation event.old_row event.new_row

-- `buildDML`
unfoldable pub build_dml : ChangeEvent → Result SqlError Statement
unfolding after_table quote_qualified_table
build_dml event = after_table event (quote_qualified_table event.table)
