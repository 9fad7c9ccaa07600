-- ===== src/Examples/SystemDelivery.antt =====
-- A stream of two transactions that the subscriber reads, with an engine over a database that fails
-- once.
use mathlib.Core.List.{Sublist}
use cloud_comp_project.Base.{◌≡◌, none, refl, ap, some, List, [], ◌∷◌, ◌++◌, arith}
use cloud_comp_project.Interfaces.{ChangeEvent}
use cloud_comp_project.Replication.Sql.{Statement}
use cloud_comp_project.Replication.Publisher.Rounds.{statements}
use cloud_comp_project.Replication.Subscriber.Stream.{consume_stream}
use cloud_comp_project.Replication.Subscriber.Stream.Transactions.{
  sent_messages, transaction_events,
}
use cloud_comp_project.Engine.Delivery.Postgres.{over_pool}
use cloud_comp_project.Engine.Delivery.Stream.{stream_delivers}
use cloud_comp_project.Engine.Loop.{Input, event_received, ticked, channel_closed, loop}
use cloud_comp_project.Engine.Loop.Rule.{taken, engine_of, world_of}
use cloud_comp_project.Engine.{Environment, new}
use cloud_comp_project.Engine.Delivery.Loss.{IsDown, acknowledged_undelivered}
use cloud_comp_project.Replication.Subscriber.{new_subscriber}
use cloud_comp_project.Replication.Subscriber.Stream.Positions.{highest_commit, positions}
use cloud_comp_project.Replication.Publisher.{PublisherError, not_initialized}
use cloud_comp_project.Examples.EngineRuns.{engine}
use cloud_comp_project.Examples.ReplicationRuns.{Database, pool, pool-IsTransactional, database}
use cloud_comp_project.Examples.DeliveryRuns.{env, env-IsUntouched}
use cloud_comp_project.Examples.StreamRuns.{
  wire, wire-HasReader, wire-HasServer, offer, start, connected, first, second,
}

abbrev sent : List ChangeEvent
sent = (consume_stream wire offer (sent_messages (first ∷ second ∷ [])) connected start).1.events

-- each event, and a tick behind it
abbrev arriving : List ChangeEvent → List Input
arriving [] = channel_closed ∷ []
arriving (ev ∷ evs) = event_received ev ∷ ticked ∷ arriving evs

arriving-taken : (evs : List ChangeEvent) → taken (arriving evs) ≡ evs
arriving-taken [] = refl
arriving-taken (ev ∷ evs) = ap (λ l. ev ∷ l) (arriving-taken evs)

stream_delivers_example :
    let end = loop (over_pool env pool 1) engine (database 1) (arriving sent) in
    (done : List ChangeEvent) × (new : List Statement) × (ss : List Statement) × (transaction_events
        connected.relations
        (first ∷ second ∷ [])
      ≡ done ++ (engine_of end).buffer)
    × ((world_of end).committed ≡ [] ++ new)
    × (statements done ≡ some ss)
    × Sublist ss new
unfolding new
stream_delivers_example =
    stream_delivers env pool (λ w. w.committed) (λ w. w.pending) pool-IsTransactional 1
      (omega arith) env-IsUntouched (λ w. refl) wire offer (λ w. w.events) wire-HasReader
      (first ∷ second ∷ []) connected start (arriving sent) engine (database 1) (refl, (refl, tt))
      refl refl (arriving-taken sent)

-- the surroundings with a cloud database that nothing reaches
abbrev unreachable : Environment Database (PublisherError (Unit {0}))
unreachable = record env {
  publisher = record {
    publish = λ batch w. (some not_initialized, w);
    health_check = λ w. (none, w);
  };
}

unreachable-IsDown : IsDown unreachable (λ w. w.committed)
unreachable-IsDown = record {
  publish_fails = λ batch w p. cc;
  publish_keeps = λ batch w. refl;
  untouched = record {
    select_keeps = λ ctx d w. refl;
    acknowledge_keeps = λ lsn w. refl;
    save_keeps = λ st w. refl;
    send_keeps = λ r w. refl;
  };
  close_keeps = λ w. refl;
}

acknowledged_undelivered_example :
    let read = consume_stream wire offer (sent_messages (first ∷ second ∷ [])) connected start in
    let end = loop unreachable engine (database 1) (arriving sent) in
    (read.0.subscriber.last_acked_lsn
      ≡ highest_commit connected.last_acked_lsn (sent_messages (first ∷ second ∷ [])))
    × (read.1.sent ≡ positions connected.last_acked_lsn (sent_messages (first ∷ second ∷ [])))
    × ((engine_of end).buffer ≡ transaction_events connected.relations (first ∷ second ∷ []))
    × ((world_of end).committed ≡ (database 1).committed)
unfolding new new_subscriber
acknowledged_undelivered_example =
    acknowledged_undelivered unreachable (λ w. w.committed) unreachable-IsDown wire offer
      (λ w. w.events) wire-HasReader (λ w. w.sent) wire-HasServer (first ∷ second ∷ []) connected
      start (arriving sent) engine (database 1) refl (refl, (refl, tt)) refl refl
      (arriving-taken sent)
