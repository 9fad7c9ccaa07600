-- ===== src/Examples/EngineRuns.antt =====
-- Runs of the engine in a world that records the delivered events. The publisher fails while it
-- has failures left.
use cloud_comp_project.Base.{
  ℕ, zero, suc, ◌+◌, ◌≤◌, if◌then◌else◌, ◌≡◌, refl, true, false, Option, none, some, List, [], ◌∷◌,
  ◌++◌, pos, arith, second, ◌*◌,
}
use cloud_comp_project.Interfaces.{ChangeEvent, ok, operation_insert}
use cloud_comp_project.Retry.Loop.{elapsed, retry_do}
use cloud_comp_project.Retry.Backoff.{delay}
use cloud_comp_project.Retry.Breaker.{allow, record_failure, record_success, new_circuit_breaker}
use cloud_comp_project.Config.{Config, DatabaseConfig}
use cloud_comp_project.State.{zero_state}
use cloud_comp_project.Engine.{Environment, Engine, background, new, flush, publish_backoff}
use cloud_comp_project.Engine.Loop.{Input, event_received, ticked, channel_closed, loop}
use cloud_comp_project.Engine.Loop.Rule.{taken, world_of}
use cloud_comp_project.Engine.Loop.Stream.{held, loop-conserves}
use cloud_comp_project.Engine.Calls.{flush_calls}
use cloud_comp_project.Engine.Position.{Recorded, flush_records}
use cloud_comp_project.Engine.Views.{IsUntouched}
use cloud_comp_project.Engine.Conservation.{IsLogged, Flushed, flush_all_or_nothing}

pub record World : Type 0 where
  pub log : List ChangeEvent
  pub failures : ℕ
  pub time : ℕ
  pub calls : ℕ

abbrev publish_with : ℕ → List ChangeEvent → World → Option (Unit {0}) × World
publish_with zero batch w = (none, record w { log = w.log ++ batch; calls = w.calls + 1 })
publish_with (suc n) batch w = (some tt, record w { failures = n; calls = w.calls + 1 })

abbrev pub world_env : Environment World (Unit {0})
world_env = record {
  subscriber = record {
    connect = λ c w. (none, w);
    subscribe = λ s ts w. (none, w);
    acknowledge = λ lsn w. (none, w);
    close = λ w. (none, w);
  };
  publisher = record {
    publish = λ batch w. publish_with w.failures batch w;
    health_check = λ w. (none, w);
  };
  load_state = λ w. (ok zero_state, w);
  save_state = λ st w. (none, w);
  now = λ w. w.time;
  select = λ ctx d w. (elapsed, record w { time = w.time + d });
  meets_deadline = λ w. true;
  has_metrics = false;
  send = λ r w. w;
}

world_env-IsUntouched : IsUntouched world_env (λ w. w.log)
world_env-IsUntouched = record {
  select_keeps = λ ctx d w. refl;
  acknowledge_keeps = λ lsn w. refl;
  save_keeps = λ st w. refl;
  send_keeps = λ r w. refl;
}

pub world_env-IsLogged : IsLogged world_env (λ w. w.log)
world_env-IsLogged = record {
  publish_done = λ batch w h. ground arith;
  publish_failed = λ batch w x h. ground arith;
  untouched = world_env-IsUntouched;
  close_keeps = λ w. refl;
}

abbrev database : DatabaseConfig
database = record {
  host = 104 ∷ [];
  port = pos 5432;
  database = 100 ∷ [];
  user = 117 ∷ [];
  password = 112 ∷ [];
  ssl_mode = 114 ∷ [];
  ssl_root_cert_path = 99 ∷ [];
  replication_slot = 115 ∷ [];
}

abbrev pub config : Config
config = record {
  local_database = database;
  cloud_database = database;
  replication = record {
    tables = [];
    batch_size = pos 2;
    flush_interval = pos second;
    max_lag_seconds = pos 60;
  };
  distributed_lock = record {
    gcs_bucket = 98 ∷ [];
    lock_key = 107 ∷ [];
    ttl = pos (30 * second);
    renew_interval = pos (10 * second);
  };
  health = record { status_port = pos 80; metrics_port = pos 81; check_interval = pos second };
  failover = record { timeout = pos second; consecutive_failures = pos 3 };
}

abbrev pub event : ℕ → ChangeEvent
event n = record {
  lsn = n;
  timestamp = n;
  table = 116 ∷ [];
  operation = operation_insert;
  old_row = [];
  new_row = [];
}

abbrev pub world : ℕ → World
world failures = record { log = []; failures = failures; time = 100 * second; calls = 0 }

abbrev pub engine : Engine
engine = record (new config) { state = some zero_state }

-- The first batch meets four failures, and is delivered on the second flush.
abbrev pub inputs : List Input
inputs =
    event_received (event 1)
    ∷ event_received (event 2)
    ∷ ticked
    ∷ event_received (event 3)
    ∷ channel_closed
    ∷ event_received (event 4)
    ∷ []

delivers_after_failures :
    (world_of (loop world_env engine (world 4) inputs)).log ≡ event 1 ∷ event 2 ∷ event 3 ∷ []
unfolding loop flush new retry_do delay publish_backoff allow record_failure record_success
    new_circuit_breaker
delivers_after_failures = refl

loop-conserves_example :
    held world_env (λ w. w.log) world_env-IsLogged (loop world_env engine (world 4) inputs)
    ≡ ((world 4).log ++ engine.buffer) ++ taken inputs
loop-conserves_example =
    loop-conserves world_env (λ w. w.log) world_env-IsLogged inputs engine (world 4)

flush_all_or_nothing_example :
    Flushed world_env
      (λ w. w.log)
      world_env-IsLogged
      (event 7 ∷ [])
      (world 2)
      (flush world_env background (record engine { buffer = event 7 ∷ [] }) (world 2))
flush_all_or_nothing_example =
    flush_all_or_nothing world_env (λ w. w.log) world_env-IsLogged background
      (record engine { buffer = event 7 ∷ [] }) (world 2)

counts_calls :
    (batch : List ChangeEvent) (w : World)
    → (world_env.publisher.publish batch w).1.calls ≡ w.calls + 1
counts_calls batch w = by_failures w.failures
  where
    by_failures : (n : ℕ) → (publish_with n batch w).1.calls ≡ w.calls + 1
    by_failures zero = refl
    by_failures (suc n) = refl

calls-IsUntouched : IsUntouched world_env (λ w. w.calls)
calls-IsUntouched = record {
  select_keeps = λ ctx d w. refl;
  acknowledge_keeps = λ lsn w. refl;
  save_keeps = λ st w. refl;
  send_keeps = λ r w. refl;
}

flush_calls_example :
    (flush world_env background (record engine { buffer = event 7 ∷ [] }) (world 9)).2.calls
    ≤ 0 + (if (allow (100 * second) engine.cloud_breaker).0 then 3 else 0)
flush_calls_example =
    flush_calls world_env (λ w. w.calls) counts_calls calls-IsUntouched background
      (record engine { buffer = event 7 ∷ [] }) (world 9)

abbrev pub loaded : Engine
loaded = record engine { buffer = event 7 ∷ event 5 ∷ [] }

pub flushes : (flush world_env background loaded (world 2)).0 ≡ none
unfolding flush new retry_do delay publish_backoff allow record_failure record_success
    new_circuit_breaker
flushes = refl

flush_records_example :
    Recorded
      (event 7 ∷ event 5 ∷ [])
      zero_state
      (flush world_env background loaded (world 2)).1.state
flush_records_example =
    flush_records world_env background (event 7) (event 5 ∷ []) loaded (world 2) zero_state refl
      refl flushes
