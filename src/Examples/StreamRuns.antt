-- ===== src/Examples/StreamRuns.antt =====
-- Runs of the subscriber on a connection that records the acknowledged positions, with a channel
-- that takes every event.
use cloud_comp_project.Base.{
  ◌≡◌, refl, true, false, none, some, List, [], ◌∷◌, ◌++◌, map, codes, Text, text_eq, decimal,
  is_space, trim_space,
}
use cloud_comp_project.Interfaces.{Lsn, ChangeEvent, ok, null, string}
use cloud_comp_project.Replication.Subscriber.{Subscriber, Postgres, new_subscriber, acknowledge}
use cloud_comp_project.Replication.Subscriber.Tuples.Rows.{AreNames, named, extract_tuple-named}
use cloud_comp_project.Replication.Subscriber.Tuples.{
  TupleColumn, Tuple, store_relation, extract_tuple, set_value,
}
use cloud_comp_project.Replication.Subscriber.Stream.{
  Message, keepalive, relation_message, insert_message, update_message, delete_message,
  consume_stream,
}
use cloud_comp_project.Replication.Subscriber.Stream.Positions.{
  highest_commit, positions, HasServer, consume_stream_acknowledges,
}
use cloud_comp_project.Replication.Subscriber.Stream.Events.{HasReader, consume_stream_events}
use cloud_comp_project.Replication.Subscriber.Stream.Transactions.{
  Transaction, sent_messages, transaction_events,
}

pub record Wire : Type 0 where
  pub sent : List Lsn
  pub events : List ChangeEvent

abbrev pub wire : Postgres Wire (Unit {0})
wire = record {
  connect = λ config w. (none, w);
  close = λ w. w;
  create_slot = λ name w. (none, w);
  duplicate_object = λ e. false;
  publication_exists = λ name w. (ok true, w);
  exec = λ statement w. (none, w);
  connect_replication = λ config w. (none, w);
  start_replication = λ slot lsn name w. (none, w);
  send_standby_status = λ lsn w. (none, record w { sent = w.sent ++ lsn ∷ [] });
  stop_stream = λ w. w;
  close_replication = λ w. (none, w);
}

abbrev pub offer : ChangeEvent → Wire → Wire
offer ev w = record w { events = w.events ++ ev ∷ [] }

pub wire-HasReader : HasReader wire offer (λ ev. ev) (λ w. w.events)
wire-HasReader = record { taken = λ ev w. refl; status_keeps = λ lsn w. refl }

abbrev pub start : Wire
start = record { sent = []; events = [] }

abbrev pub connected : Subscriber
connected = record new_subscriber { connected = true; last_acked_lsn = 3 }

abbrev tuple : Tuple
tuple =
    some (record { data_type = 116; bytes = codes "7" })
    ∷ some (record { data_type = 110; bytes = [] })
    ∷ some (record { data_type = 117; bytes = [] })
    ∷ []

abbrev relation : Message
relation = relation_message (record {
  relation_id = 9;
  namespace = codes "public";
  relation_name = codes "t";
  columns = some (codes "id") ∷ some (codes "name") ∷ none ∷ [];
})

abbrev pub first : Transaction
first = record {
  final_lsn = 10;
  commit_time = 100;
  changes = relation ∷ insert_message 9 (some tuple) ∷ keepalive true ∷ delete_message 9 none ∷ [];
  commit_lsn = 11;
}

abbrev pub second : Transaction
second = record {
  final_lsn = 20;
  commit_time = 200;
  changes = update_message 9 none (some tuple) ∷ [];
  commit_lsn = 21;
}

-- A reply gives the last position, and each commit is acknowledged as it is read.
acknowledges :
    (consume_stream wire offer (sent_messages (first ∷ second ∷ [])) connected start).1.sent
    ≡ 3 ∷ 11 ∷ 21 ∷ []
unfolding consume_stream acknowledge new_subscriber store_relation
acknowledges = refl

-- The value of an unchanged TOAST column is a text like any other.
extracts :
    extract_tuple (some tuple) (codes "id" ∷ codes "name" ∷ [] ∷ [])
    ≡ (codes "id", string (codes "7"))
      ∷ (codes "name", null)
      ∷ (codes "col_3", string (codes "unchanged_toast"))
      ∷ []
unfolding extract_tuple set_value codes text_eq decimal trim_space is_space
extracts = refl

pub wire-HasServer : HasServer wire offer (λ w. w.sent)
wire-HasServer = record { sends = λ lsn w. refl; tells = λ lsn w. refl; offer_keeps = λ ev w. refl }

consume_stream_acknowledges_example :
    let messages = sent_messages (first ∷ second ∷ []) in
    let (c, w) = consume_stream wire offer messages connected start in
    (c.subscriber.last_acked_lsn ≡ highest_commit 3 messages) × (w.sent ≡ positions 3 messages)
unfolding new_subscriber
consume_stream_acknowledges_example =
    consume_stream_acknowledges wire offer (λ w. w.sent) wire-HasServer
      (sent_messages (first ∷ second ∷ [])) connected start refl

consume_stream_events_example :
    (consume_stream wire offer (sent_messages (first ∷ second ∷ [])) connected start).1.events
    ≡ start.events ++ map (λ ev. ev) (transaction_events connected.relations (first ∷ second ∷ []))
consume_stream_events_example =
    consume_stream_events wire offer (λ ev. ev) (λ w. w.events) wire-HasReader (first ∷ second ∷ [])
      connected start (refl, (refl, tt))

abbrev columns : List TupleColumn
columns =
    record { data_type = 116; bytes = codes "7" }
    ∷ record { data_type = 110; bytes = [] }
    ∷ record { data_type = 117; bytes = [] }
    ∷ []

abbrev names : List Text
names = codes "id" ∷ codes "name" ∷ codes "note" ∷ []

names-AreNames : AreNames names columns
unfolding codes text_eq trim_space is_space
names-AreNames = (refl, (refl, (refl, tt)), (refl, (refl, tt), (refl, tt, tt)))

extract_tuple-named_example :
    extract_tuple (some (map (λ c. some c) columns)) names ≡ named names columns
extract_tuple-named_example = extract_tuple-named names columns names-AreNames
