-- ===== src/Replication/Subscriber/Stream.antt =====
-- state-sync-engine/internal/replication/subscriber.go: `consumeStream`. What the connection
-- receives is a list, at whose end it fails, as it does when the context ends.
pub mod Positions
pub mod Transactions
pub mod Events
use cloud_comp_project.Base.{ℕ, Bool, true, false, Option, none, some, List, [], ◌∷◌, ◌++◌, Text}
use cloud_comp_project.Interfaces.{
  Lsn, ChangeEvent, Operation, operation_insert, operation_update, operation_delete,
}
use cloud_comp_project.Replication.Subscriber.{Subscriber, Postgres, acknowledge}
use cloud_comp_project.Replication.Subscriber.Tuples.{
  RelationMessage, Tuple, store_relation, relation_name, relation_columns, extract_tuple,
}

-- What is received: a keepalive, which may ask for a reply, a logical message, or a message that is
-- skipped.
pub data Message : Type 0 where
  keepalive : Bool → Message
  begin_message : Lsn → ℕ → Message
  relation_message : RelationMessage → Message
  insert_message : ℕ → Option Tuple → Message
  update_message : ℕ → Option Tuple → Option Tuple → Message
  delete_message : ℕ → Option Tuple → Message
  commit_message : Lsn → Message
  skipped : Message

-- The subscriber, and the variables `txLSN` and `txTime`.
pub record Consumer : Type 0 where
  pub subscriber : Subscriber
  pub tx_lsn : Lsn
  pub tx_time : ℕ

module _ {W E : Type 0} (pg : Postgres W E) (offer : ChangeEvent → W → W) where
  -- `_ = s.Acknowledge(…)`
  acknowledged : Lsn → Consumer → W → Consumer × W
  unfolding acknowledge
  acknowledged lsn c w =
      let (_ignored, s, w') = acknowledge pg lsn c.subscriber w in (record c { subscriber = s }, w')

  -- an event of the running transaction
  pub change : Consumer → ℕ → Operation → Option Tuple → Option Tuple → ChangeEvent
  unfolding relation_name relation_columns extract_tuple
  change c id operation old new = record {
    lsn = c.tx_lsn;
    timestamp = c.tx_time;
    table = relation_name c.subscriber id;
    operation = operation;
    old_row = extract_tuple old (relation_columns c.subscriber id);
    new_row = extract_tuple new (relation_columns c.subscriber id);
  }

  -- a round of the loop; `offer` is `emitEvent`, which sends the event to the channel unless the
  -- context ends
  pub consume : Message → Consumer → W → Consumer × W
  unfolding acknowledged change store_relation
  consume (keepalive false) c w = (c, w)
  consume (keepalive true) c w = acknowledged c.subscriber.last_acked_lsn c w
  consume (begin_message final_lsn commit_time) c w =
      (record c { tx_lsn = final_lsn; tx_time = commit_time }, w)
  consume (relation_message m) c w = (record c { subscriber = store_relation m c.subscriber }, w)
  consume (insert_message id tuple) c w = (c, offer (change c id operation_insert none tuple) w)
  consume (update_message id old new) c w = (c, offer (change c id operation_update old new) w)
  consume (delete_message id old) c w = (c, offer (change c id operation_delete old none) w)
  consume (commit_message commit_lsn) c w =
      acknowledged commit_lsn (record c { tx_lsn = commit_lsn }) w
  consume skipped c w = (c, w)

  pub consume_all : List Message → Consumer → W → Consumer × W
  unfolding consume
  consume_all [] c w = (c, w)
  consume_all (m ∷ ms) c w = let (c', w') = consume m c w in consume_all ms c' w'

-- `consumeStream`
unfoldable pub consume_stream :
    {W E : Type 0}
    → Postgres W E
    → (ChangeEvent → W → W)
    → List Message
    → Subscriber
    → W
    → Consumer × W
unfolding consume_all
consume_stream pg offer messages s w =
    consume_all pg offer messages (record { subscriber = s; tx_lsn = 0; tx_time = 0 }) w
