-- ===== src/Examples/RecoveryRuns.antt =====
-- An engine whose publisher refuses a single event, and takes two.
use cloud_comp_project.Base.{
  ℕ, ◌*◌, ◌≡◌, refl, none, some, [], ◌∷◌, ◌++◌, arith, second, ◌==◌, length, if◌then◌else◌,
}
use cloud_comp_project.Retry.Loop.{retry_do}
use cloud_comp_project.Retry.Backoff.{delay}
use cloud_comp_project.Retry.Breaker.{
  circuit_open, allow, record_failure, record_success, new_circuit_breaker,
}
use cloud_comp_project.State.{zero_state}
use cloud_comp_project.Engine.{Environment, Engine, background, new, flush, publish_backoff}
use cloud_comp_project.Engine.Conservation.{IsLogged}
use cloud_comp_project.Engine.Recovery.{History, begun, received, flushed, Delivers, outage_ends}
use cloud_comp_project.Examples.EngineRuns.{World, world_env, world, config, event, engine}

abbrev env : Environment World (Unit {0})
env = record world_env {
  publisher = record {
    publish = λ batch w.
        if length batch == 2 then (none, record w { log = w.log ++ batch }) else (some tt, w);
    health_check = λ w. (none, w);
  };
}

env-IsLogged : IsLogged env (λ w. w.log)
env-IsLogged = record {
  publish_done = λ batch w h. ground arith;
  publish_failed = λ batch w x h. ground arith;
  untouched = record {
    select_keeps = λ ctx d w. refl;
    acknowledge_keeps = λ lsn w. refl;
    save_keeps = λ st w. refl;
    send_keeps = λ r w. refl;
  };
  close_keeps = λ w. refl;
}

abbrev with_event : Engine → ℕ → Engine
with_event e n = record e { buffer = e.buffer ++ event n ∷ [] }

abbrev again : Engine → Engine
again e = (flush env background e (world 0)).1

abbrev failed : Engine
failed = again (again (again (again (again (with_event engine 1)))))

abbrev down : Engine
down = with_event failed 2

past : History env config 5 down
past = received (event 2) (
    flushed background (world 0) (
      flushed background (world 0) (
        flushed background (world 0) (
          flushed background (world 0)
            (flushed background (world 0) (received (event 1) (begun (some zero_state))))))))

opened : down.cloud_breaker.state ≡ circuit_open
unfolding flush new retry_do delay publish_backoff allow record_failure record_success
    new_circuit_breaker
opened = refl

abbrev later : World
later = record (world 0) { time = 500 * second }

outage_ends_example :
    Delivers env (λ w. w.log) env-IsLogged down.buffer later (flush env background down later)
unfolding flush new retry_do delay publish_backoff allow record_failure record_success
    new_circuit_breaker
outage_ends_example =
    outage_ends env (λ w. w.log) env-IsLogged config 5 down background later past (omega arith)
      (λ e. cc) (omega arith) (λ w. refl)
