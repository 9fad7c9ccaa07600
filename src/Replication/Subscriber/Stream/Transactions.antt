-- ===== src/Replication/Subscriber/Stream/Transactions.antt =====
-- state-sync-engine/internal/replication/subscriber.go: streams of whole transactions, and the events
-- that they call for, said without the state of the subscriber.
use cloud_comp_project.Base.{ℕ, ◌≡◌, Bool, true, false, Option, none, List, [], ◌∷◌, ◌++◌, map}
use cloud_comp_project.Interfaces.{
  Lsn, ChangeEvent, Operation, operation_insert, operation_update, operation_delete,
}
use cloud_comp_project.Replication.Subscriber.{RelationInfo}
use cloud_comp_project.Replication.Subscriber.Tuples.{
  RelationMessage, Tuple, column_name, find_relation, table_of, columns_of, extract_tuple,
}
use cloud_comp_project.Replication.Subscriber.Stream.{
  Message, begin_message, relation_message, insert_message, update_message, delete_message,
  commit_message,
}

-- A transaction as the server sends it. `changes` may hold keepalives, relations and messages that
-- are skipped, too.
pub record Transaction : Type 0 where
  pub final_lsn : Lsn
  pub commit_time : ℕ
  pub changes : List Message
  pub commit_lsn : Lsn

-- No change begins or commits a transaction.
abbrev pub stays_inside : List Message → Bool
stays_inside [] = true
stays_inside (begin_message l t ∷ ms) = false
stays_inside (commit_message l ∷ ms) = false
stays_inside (_ ∷ ms) = stays_inside ms

abbrev pub AreWhole : List Transaction → Type 0
AreWhole [] = Unit
AreWhole (t ∷ ts) = (stays_inside t.changes ≡ true) × AreWhole ts

abbrev pub sent_messages : List Transaction → List Message
sent_messages [] = []
sent_messages (t ∷ ts) =
    begin_message t.final_lsn t.commit_time
    ∷ (t.changes ++ commit_message t.commit_lsn ∷ sent_messages ts)

-- What the relation messages have said, the latest first.
abbrev pub Catalog : Type 0
Catalog = List (ℕ × RelationInfo)

abbrev pub noted : RelationMessage → Catalog → Catalog
noted m known =
    (
      m.relation_id,
      record { table = m.namespace ++ 46 ∷ m.relation_name; columns = map column_name m.columns },
    )
    ∷ known

-- The event for a changed row: the latest message on its relation gives the names of the table and
-- of the columns.
abbrev pub row_event : Catalog → Lsn → ℕ → ℕ → Operation → Option Tuple → Option Tuple → ChangeEvent
row_event known l t id operation old new = record {
  lsn = l;
  timestamp = t;
  table = table_of (find_relation id known);
  operation = operation;
  old_row = extract_tuple old (columns_of (find_relation id known));
  new_row = extract_tuple new (columns_of (find_relation id known));
}

-- The events that the changes of a transaction call for: one for each row.
abbrev pub change_events : Catalog → Lsn → ℕ → List Message → List ChangeEvent
change_events known l t [] = []
change_events known l t (relation_message m ∷ ms) = change_events (noted m known) l t ms
change_events known l t (insert_message id new ∷ ms) =
    row_event known l t id operation_insert none new ∷ change_events known l t ms
change_events known l t (update_message id old new ∷ ms) =
    row_event known l t id operation_update old new ∷ change_events known l t ms
change_events known l t (delete_message id old ∷ ms) =
    row_event known l t id operation_delete old none ∷ change_events known l t ms
change_events known l t (_ ∷ ms) = change_events known l t ms

abbrev pub known_after : Catalog → List Message → Catalog
known_after known [] = known
known_after known (relation_message m ∷ ms) = known_after (noted m known) ms
known_after known (_ ∷ ms) = known_after known ms

abbrev pub transaction_events : Catalog → List Transaction → List ChangeEvent
transaction_events known [] = []
transaction_events known (t ∷ ts) =
    change_events known t.final_lsn t.commit_time t.changes
    ++ transaction_events (known_after known t.changes) ts
