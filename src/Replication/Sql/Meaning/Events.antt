-- ===== src/Replication/Sql/Meaning/Events.antt =====
-- The statement for an event says what the event does.
use mathlib.Core.List.{Permᴰ, Nodup}
use cloud_comp_project.Base.{◌≡◌, refl, subst, some, [], ◌∷◌, Text}
use cloud_comp_project.Interfaces.{
  Row, ChangeEvent, Operation, operation_insert, operation_update, operation_delete,
  operation_other, Result, ok, err,
}
use cloud_comp_project.Replication.Identifier.{quote_qualified_table}
use cloud_comp_project.Replication.Sql.{
  SqlError, Statement, choose_predicate_row, statement_for, after_table, build_dml,
}
use cloud_comp_project.Replication.Sql.Rows.{keys}
use cloud_comp_project.Replication.Sql.Reading.Loops.{OnOk}
use cloud_comp_project.Replication.Sql.Meaning.{Meaning, inserts, updates, deletes, read_statement}
use cloud_comp_project.Replication.Sql.Meaning.Builders.{
  Says, insert_sql-Says, update_sql-Says, delete_sql-Says,
}
use cloud_comp_project.Replication.Sql.Meaning.Entries.{entries-Perm}

-- The row that the old values of an event select: the old row, or without one the new row.
abbrev pub selected : Row → Row → Row
selected [] new_row = new_row
selected (entry ∷ old_row) new_row = entry ∷ old_row

-- An insert of the new row; an update of the selected rows to the new row; a delete of the selected
-- rows. The entries are given in any order.
abbrev pub Does : Operation → Row → Row → Meaning → Type 0
Does operation_insert old_row new_row (inserts l) = Permᴰ l new_row
Does operation_update old_row new_row (updates sets conditions) =
    Permᴰ sets new_row × Permᴰ conditions (selected old_row new_row)
Does operation_delete old_row new_row (deletes conditions) =
    Permᴰ conditions (selected old_row new_row)
Does _ old_row new_row m = ⊥

abbrev SaysSo : Text → Operation → Row → Row → Statement → Type 0
SaysSo table op old_row new_row stmt =
    (m : Meaning) × (read_statement table stmt ≡ some m) × Does op old_row new_row m

abbrev NamedSo : ChangeEvent → Statement → Type 0
NamedSo ev stmt =
    (table : Text) × (quote_qualified_table ev.table ≡ ok table)
    × SaysSo table ev.operation ev.old_row ev.new_row stmt

with_meaning :
    (table : Text) (op : Operation) (old_row new_row : Row) (m : Meaning)
    (r : Result SqlError Statement)
    → Does op old_row new_row m
    → OnOk (Says table m) r
    → OnOk (SaysSo table op old_row new_row) r
with_meaning table op old_row new_row m (ok stmt) d h = (m, h, d)
with_meaning table op old_row new_row m (err e) d h = tt

chosen_row :
    (old_row new_row : Row) → choose_predicate_row old_row new_row ≡ selected old_row new_row
unfolding choose_predicate_row
chosen_row [] new_row = refl
chosen_row (entry ∷ old_row) new_row = refl

selected_distinct :
    (old_row new_row : Row)
    → Nodup (keys old_row)
    → Nodup (keys new_row)
    → Nodup (keys (selected old_row new_row))
selected_distinct [] new_row d d' = d'
selected_distinct (entry ∷ old_row) new_row d d' = d

statement-SaysSo :
    (table : Text) (op : Operation) (old_row new_row : Row)
    → Nodup (keys old_row)
    → Nodup (keys new_row)
    → OnOk (SaysSo table op old_row new_row) (statement_for table op old_row new_row)
unfolding statement_for
statement-SaysSo table operation_insert old_row new_row d d' =
    with_meaning table operation_insert old_row new_row _ _ (entries-Perm new_row d')
      (insert_sql-Says table new_row)
statement-SaysSo table operation_update old_row new_row d d' =
    let chosen = selected_distinct old_row new_row d d' in
    rw (chosen_row old_row new_row) (
      with_meaning table operation_update old_row new_row _ _
        (entries-Perm new_row d', entries-Perm (selected old_row new_row) chosen)
        (update_sql-Says table new_row (selected old_row new_row)))
statement-SaysSo table operation_delete old_row new_row d d' =
    let chosen = selected_distinct old_row new_row d d' in
    rw (chosen_row old_row new_row) (
      with_meaning table operation_delete old_row new_row _ _
        (entries-Perm (selected old_row new_row) chosen)
        (delete_sql-Says table (selected old_row new_row)))
statement-SaysSo table (operation_other s) old_row new_row d d' = tt

table-SaysSo :
    (ev : ChangeEvent) (r : Result Text Text)
    → quote_qualified_table ev.table ≡ r
    → Nodup (keys ev.old_row)
    → Nodup (keys ev.new_row)
    → OnOk (NamedSo ev) (after_table ev r)
unfolding after_table
table-SaysSo ev (err name) e d d' = tt
table-SaysSo ev (ok table) e d d' =
    named _ (statement-SaysSo table ev.operation ev.old_row ev.new_row d d')
  where
    named :
        (r : Result SqlError Statement)
        → OnOk (SaysSo table ev.operation ev.old_row ev.new_row) r
        → OnOk (NamedSo ev) r
    named (ok stmt) h = (table, e, h)
    named (err x) h = tt

-- If the columns of each row of an event are different, and `buildDML` gives a statement for it,
-- then a reader that knows the quoted name of the table reads from the text, with each placeholder
-- standing for its argument, exactly what the event says: the insert of its new row, the update to
-- its new row of the rows that have the old values, or the delete of those, and nothing behind it.
-- A null among the old values is asked for by IS NULL, not by a comparison, which would hold for no
-- row.
pub build_dml-Does :
    (ev : ChangeEvent) (stmt : Statement)
    → Nodup (keys ev.old_row)
    → Nodup (keys ev.new_row)
    → build_dml ev ≡ ok stmt
    → (table : Text) × (m : Meaning) × (quote_qualified_table ev.table ≡ ok table)
      × (read_statement table stmt ≡ some m)
      × Does ev.operation ev.old_row ev.new_row m
unfolding build_dml
build_dml-Does ev stmt d d' h =
    let (table, e, said) =
      subst (OnOk (NamedSo ev)) h (table-SaysSo ev (quote_qualified_table ev.table) refl d d') in
    let (m, says, does) = said in (table, m, e, says, does)
