-- ===== src/Examples/DeliveryRuns.antt =====
-- Runs of the engine over the publisher, on a database that fails on a statement when its budget
-- is used up.
use mathlib.Core.List.{Sublist}
use cloud_comp_project.Base.{
  ◌≡◌, refl, true, false, none, some, List, [], ◌∷◌, ◌++◌, arith, second, ◌*◌, codes, text_eq,
  decimal, join,
}
use cloud_comp_project.Interfaces.{ChangeEvent, ok, err, operation_delete, null, string}
use cloud_comp_project.Retry.Loop.{elapsed, retry_do}
use cloud_comp_project.Retry.Backoff.{delay}
use cloud_comp_project.Retry.Breaker.{allow, record_failure, record_success, new_circuit_breaker}
use cloud_comp_project.State.{zero_state}
use cloud_comp_project.Replication.Identifier.{
  quote_identifier, quote_qualified_table, is_safe_identifier,
}
use cloud_comp_project.Replication.Sql.{
  Statement, insert_missing_new_row, build_dml, build_insert_sql, build_delete_sql,
  build_where_clause, choose_predicate_row, sorted_keys, sort, insert, lookup, text_leb,
}
use cloud_comp_project.Replication.Publisher.{PublisherError, publish}
use cloud_comp_project.Replication.Publisher.Rounds.{statements}
use cloud_comp_project.Engine.{Environment, Engine, new, flush, publish_backoff}
use cloud_comp_project.Engine.Views.{IsUntouched}
use cloud_comp_project.Engine.Loop.{Input, event_received, channel_closed, loop}
use cloud_comp_project.Engine.Loop.Rule.{taken, engine_of, world_of}
use cloud_comp_project.Engine.Delivery.{Delivery}
use cloud_comp_project.Engine.Delivery.Postgres.{over_pool, loop_delivers, unbuildable_event_blocks}
use cloud_comp_project.Examples.EngineRuns.{engine}
use cloud_comp_project.Examples.ReplicationRuns.{
  Database, pool, pool-IsTransactional, event, statement, database,
}

abbrev pub env : Environment Database (PublisherError (Unit {0}))
env = record {
  subscriber = record {
    connect = λ c w. (none, w);
    subscribe = λ s ts w. (none, w);
    acknowledge = λ lsn w. (none, w);
    close = λ w. (none, w);
  };
  publisher = record { publish = λ batch w. (none, w); health_check = λ w. (none, w) };
  load_state = λ w. (ok zero_state, w);
  save_state = λ st w. (none, w);
  now = λ w. 100 * second;
  select = λ ctx d w. (elapsed, w);
  meets_deadline = λ w. true;
  has_metrics = false;
  send = λ r w. w;
}

pub env-IsUntouched : IsUntouched (over_pool env pool 1) (λ w. w.committed)
env-IsUntouched = record {
  select_keeps = λ ctx d w. refl;
  acknowledge_keeps = λ lsn w. refl;
  save_keeps = λ st w. refl;
  send_keeps = λ r w. refl;
}

abbrev inputs : List Input
inputs =
    event_received (event (codes "a")) ∷ event_received (event (codes "b")) ∷ channel_closed ∷ []

-- The second batch fails at first, and the retry applies the first again.
redelivers :
    (world_of (loop (over_pool env pool 1) engine (database 1) inputs)).committed
    ≡ statement (codes "a") ∷ statement (codes "a") ∷ statement (codes "b") ∷ []
unfolding loop flush new retry_do delay publish_backoff allow record_failure record_success
    new_circuit_breaker publish build_dml quote_qualified_table quote_identifier build_insert_sql
    codes decimal join is_safe_identifier sorted_keys sort insert lookup text_eq
redelivers = refl

loop_delivers_example :
    let s = loop (over_pool env pool 1) engine (database 1) inputs in
    (done : List ChangeEvent) × (new : List Statement) × (ss : List Statement) × (done
        ++ (engine_of s).buffer
      ≡ engine.buffer ++ taken inputs)
    × ((world_of s).committed ≡ [] ++ new)
    × Delivery (engine.buffer ++ taken inputs) done new
    × (statements done ≡ some ss)
    × Sublist ss new
loop_delivers_example =
    loop_delivers env pool (λ w. w.committed) (λ w. w.pending) pool-IsTransactional 1 (omega arith)
      env-IsUntouched (λ w. refl) inputs engine (database 1)

-- an insert without a row
abbrev empty_insert : ChangeEvent
empty_insert = record (event []) { new_row = [] }

no_statement : build_dml empty_insert ≡ err insert_missing_new_row
unfolding build_dml quote_qualified_table quote_identifier build_insert_sql codes is_safe_identifier
no_statement = refl

abbrev blocked : Engine
blocked = record engine { buffer = event (codes "a") ∷ empty_insert ∷ [] }

unbuildable_event_blocks_example :
    (engine_of (loop (over_pool env pool 1) blocked (database 9) inputs)).buffer
    ≡ blocked.buffer ++ taken inputs
unbuildable_event_blocks_example =
    unbuildable_event_blocks env pool (λ w. w.committed) (λ w. w.pending) pool-IsTransactional 1
      (omega arith) env-IsUntouched (λ w. refl) inputs (event (codes "a") ∷ []) [] empty_insert
      insert_missing_new_row blocked (database 9) refl no_statement

-- The old row of a delete on a table whose replica identity is its key: the server sends the other
-- columns as nulls. The statement then looks for a row whose other columns are null.
delete_by_key :
    build_dml (record (event []) {
      operation = operation_delete;
      old_row = (codes "id", string (codes "7")) ∷ (codes "name", null) ∷ [];
      new_row = [];
    })
    ≡ ok (
      codes "DELETE FROM \"public\".\"t\" WHERE \"id\" = $1 AND \"name\" IS NULL",
      string (codes "7") ∷ [],
    )
unfolding build_dml quote_qualified_table quote_identifier build_delete_sql build_where_clause
    choose_predicate_row codes decimal join is_safe_identifier sorted_keys sort insert text_leb
    lookup text_eq
delete_by_key = refl
