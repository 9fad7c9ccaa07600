-- ===== src/Engine/Loop.antt =====
-- state-sync-engine/internal/engine/engine.go: `loop`, `shutdown`, `Run` and `State`. What the
-- `select` of the loop picks in each round is a list of inputs.
pub mod Rule
pub mod Stream
use cloud_comp_project.Base.{
  ℕ, zero, suc, Bool, true, false, not, ltb, Option, none, some, List, [], ◌∷◌, ◌++◌, pos, lt_ℤ,
  length, if◌then◌else◌,
}
use cloud_comp_project.Interfaces.{ChangeEvent, Result, ok, err, ReplicationSubscriber}
use cloud_comp_project.Retry.Backoff.{default_backoff}
use cloud_comp_project.Retry.Loop.{RetryError, Run, out_of_fuel, returned, retry_do}
use cloud_comp_project.Config.{Config, to_db_config}
use cloud_comp_project.State.{ReplicationState}
use cloud_comp_project.Engine.{
  Context, background, run_context, shutdown_context, Environment, Engine, FlushError, snapshot,
  flush,
}

pub data Input : Type 0 where
  context_done channel_closed ticked : Input
  event_received : ChangeEvent → Input

-- The errors of `Run`; the last stands for a connection loop that is cut off by its fuel.
pub data EngineError (E : Type 0) : Type 0 where
  flushing : FlushError E → EngineError E
  saving_state closing_subscriber : E → EngineError E
  shutdown_timed_out : EngineError E
  loading_state starting_subscription : E → EngineError E
  connecting_subscriber : RetryError E → EngineError E
  connecting_cut_off : EngineError E

-- `running` means that the loop waits for the next input.
pub data LoopState (W E : Type 0) : Type 0 where
  running : Engine → W → LoopState W E
  stopped : Option (EngineError E) → Engine → W → LoopState W E

module _ {E : Type 0} where
  first_error : Option (EngineError E) → Option (EngineError E) → Option (EngineError E)
  first_error none later = later
  first_error (some e) later = some e

  as_error : {X : Type 0} → (X → EngineError E) → Option X → Option (EngineError E)
  as_error f none = none
  as_error f (some x) = some (f x)

module _ {W E : Type 0} (env : Environment W E) where
  -- `shutdownWork`
  pub shutdown_work : Engine → W → Option (EngineError E) × Engine × W
  unfolding first_error as_error
  shutdown_work e w =
      let (flush_err, e1, w1) = flush env shutdown_context e w in
      let (save_err, w2) = env.save_state (snapshot e1.state) w1 in
      let (close_err, w3) = env.subscriber.close w2 in
      (
        first_error (first_error (as_error flushing flush_err) (as_error saving_state save_err))
            (as_error closing_subscriber close_err),
        e1,
        w3,
      )

  -- `shutdown`: the engine and the world are those at the end of the work, which goes on after a
  -- timeout
  pub shutdown : Engine → W → LoopState W E
  unfolding shutdown_work
  shutdown e w =
      let (result, e', w') = shutdown_work e w in
      stopped (if env.meets_deadline w then result else some shutdown_timed_out) e' w'

  -- a flush by the loop, which logs an error and goes on
  flush_and_go : Engine → W → LoopState W E
  flush_and_go e w = let (_logged, e', w') = flush env background e w in running e' w'

  flush_if : Bool → Engine → W → LoopState W E
  unfolding flush_and_go
  flush_if true e w = flush_and_go e w
  flush_if false e w = running e w

  -- one round of the loop
  pub round : Input → Engine → W → LoopState W E
  unfolding shutdown flush_if
  round context_done e w = shutdown e w
  round channel_closed e w = shutdown e w
  round (event_received ev) e w =
      let e1 = record e { buffer = e.buffer ++ ev ∷ [] } in
      flush_if (not (lt_ℤ (pos (length e1.buffer)) e.cfg.replication.batch_size)) e1 w
  round ticked e w = flush_if (ltb 0 (length e.buffer)) e w

  rounds : LoopState W E → List Input → LoopState W E
  rounds (stopped result e w) inputs = stopped result e w
  rounds (running e w) [] = running e w
  rounds (running e w) (i ∷ inputs) = rounds (round i e w) inputs

  -- `loop`
  unfoldable pub loop : Engine → W → List Input → LoopState W E
  unfolding rounds round
  loop e w inputs = rounds (running e w) inputs

  after_subscribe : Option E → Engine → W → List Input → LoopState W E
  unfolding loop
  after_subscribe (some x) e w inputs = stopped (some (starting_subscription x)) e w
  after_subscribe none e w inputs = loop e w inputs

  after_connect : Run W E → Engine → List Input → LoopState W E
  unfolding after_subscribe
  after_connect (out_of_fuel w) e inputs = stopped (some connecting_cut_off) e w
  after_connect (returned (some x) w) e inputs = stopped (some (connecting_subscriber x)) e w
  after_connect (returned none w) e inputs =
      let (x, w') =
        env.subscriber.subscribe e.cfg.local_database.replication_slot e.cfg.replication.tables w in
      after_subscribe x e w' inputs

  after_load : ℕ → Result E ReplicationState → Engine → W → List Input → LoopState W E
  unfolding after_connect
  after_load fuel (err x) e w inputs = stopped (some (loading_state x)) e w
  after_load fuel (ok rs) e w inputs =
      let e1 = record e { state = some rs; buffer = [] } in
      let run =
        retry_do default_backoff 0 (some (λ attempt x d w. w)) (env.select run_context)
          (env.subscriber.connect (to_db_config e.cfg.local_database)) fuel w in
      after_connect run e1 inputs

  -- `Run`: `fuel` bounds the attempts to connect, which the program does not
  unfoldable pub run : ℕ → Engine → W → List Input → LoopState W E
  unfolding after_load
  run fuel e w inputs = let (rs, w') = env.load_state w in after_load fuel rs e w' inputs

-- `State`
unfoldable pub current_state : Engine → ReplicationState
current_state e = snapshot e.state
