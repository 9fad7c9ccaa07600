-- ===== src/Examples/ServerRuns.antt =====
-- Answers of the status endpoint.
use cloud_comp_project.Base.{
  ◌*◌, ◌+◌, ◌≡◌, refl, none, some, [], ◌∷◌, ℤ, pos, negsuc, codes, decimal, second, text_eq,
}
use cloud_comp_project.State.{ReplicationState, zero_state, node_local}
use cloud_comp_project.Lock.Bucket.{format_rfc3339}
use cloud_comp_project.Engine.{Environment}
use cloud_comp_project.Engine.Loop.{loop}
use cloud_comp_project.Engine.Loop.Rule.{engine_of}
use cloud_comp_project.Server.{
  text_value, time_value, number_value, fields, response, new_status_server, serve,
}
use cloud_comp_project.Server.Duration.{duration_string}
use cloud_comp_project.Server.Outage.{status, answer, outage_unnoticed}
use cloud_comp_project.Examples.EngineRuns.{World, world_env, world, engine, inputs}

shows_hours : duration_string (pos (3_723 * second + 50_000_000)) ≡ codes "1h2m3.05s"
unfolding duration_string codes decimal
shows_hours = refl

shows_micros : duration_string (negsuc 1_499) ≡ codes "-1.5µs"
unfolding duration_string codes decimal
shows_micros = refl

abbrev lagging : ReplicationState
lagging = record zero_state {
  active_node = node_local;
  current_lag = pos (90 * second);
  last_flush_time = 70 * second;
}

shows_fields :
    fields (response lagging)
    ≡ (codes "active_node", text_value (codes "local"))
      ∷ (codes "replication_lag", text_value (codes "1m30s"))
      ∷ (codes "lock_holder", text_value [])
      ∷ (codes "events_processed", number_value (pos 0))
      ∷ (codes "events_failed", number_value (pos 0))
      ∷ (codes "last_lsn", number_value (pos 0))
      ∷ (codes "last_flush_time", time_value (70 * second))
      ∷ (codes "slot_name", text_value [])
      ∷ []
unfolding fields response duration_string codes decimal format_rfc3339 zero_state
shows_fields = refl

other_path :
    serve
      (new_status_server (pos 80) (λ (st : ReplicationState). st) (pos second))
      (codes "/")
      lagging
    ≡ none
unfolding serve new_status_server text_eq codes
other_path = refl

-- The cloud database is out of reach.
abbrev failing_env : Environment World (Unit {0})
failing_env = record world_env {
  publisher = record { publish = λ batch w. (some tt, w); health_check = λ w. (some tt, w) };
}

outage_unnoticed_example :
    (status (pos second) engine ≡ answer (pos second) zero_state zero_state.events_failed)
    × (n : ℤ) × (status (pos second) (engine_of (loop failing_env engine (world 0) inputs))
        ≡ answer (pos second) zero_state n)
outage_unnoticed_example =
    outage_unnoticed failing_env (pos second) inputs engine (world 0) zero_state (λ batch w h. cc)
      refl
