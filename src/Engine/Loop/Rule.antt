-- ===== src/Engine/Loop/Rule.antt =====
-- The proof rules of the loop: an invariant of the events taken so far, the engine and the world, or
-- of the buffer and a view of the world.
use mathlib.Core.List.{append-nil, append_assoc}
use cloud_comp_project.Base.{◌≡◌, sym, subst, Bool, true, false, ltb, List, [], ◌∷◌, ◌++◌, length}
use cloud_comp_project.Interfaces.{ChangeEvent}
use cloud_comp_project.State.{ReplicationState}
use cloud_comp_project.Engine.{
  Context, background, Environment, Engine, flush, snapshot, shutdown_context,
}
use cloud_comp_project.Engine.Views.{IsUntouched}
use cloud_comp_project.Engine.Loop.{
  Input, context_done, channel_closed, ticked, event_received, LoopState, running, stopped,
  shutdown_work, shutdown, flush_and_go, flush_if, round, rounds, loop,
}

-- The events that the loop takes from its inputs: those before the end of the context or of the
-- channel.
abbrev pub taken : List Input → List ChangeEvent
taken [] = []
taken (context_done ∷ inputs) = []
taken (channel_closed ∷ inputs) = []
taken (ticked ∷ inputs) = taken inputs
taken (event_received ev ∷ inputs) = ev ∷ taken inputs

abbrev pub engine_of : {W E : Type 0} → LoopState W E → Engine
engine_of (running e w) = e
engine_of (stopped result e w) = e

abbrev pub world_of : {W E : Type 0} → LoopState W E → W
world_of (running e w) = w
world_of (stopped result e w) = w

-- What an invariant of the loop is kept by.
pub record IsKept {W E : Type 0} (env : Environment W E)
    (I : List ChangeEvent → Engine → W → Type 0) : Type 0 where
  pub receives :
      (xs : List ChangeEvent) (ev : ChangeEvent) (e : Engine) (w : W)
      → I xs e w
      → I (xs ++ ev ∷ []) (record e { buffer = e.buffer ++ ev ∷ [] }) w
  pub flushes :
      (ctx : Context) (xs : List ChangeEvent) (e : Engine) (w : W)
      → I xs e w
      → I xs (flush env ctx e w).1 (flush env ctx e w).2
  pub saves :
      (xs : List ChangeEvent) (e : Engine) (st : ReplicationState) (w : W)
      → I xs e w
      → I xs e (env.save_state st w).1
  pub closes :
      (xs : List ChangeEvent) (e : Engine) (w : W) → I xs e w → I xs e (env.subscriber.close w).1

module _ {W E : Type 0} (env : Environment W E) (I : List ChangeEvent → Engine → W → Type 0)
    (kept : IsKept env I) where
  abbrev Holds : List ChangeEvent → LoopState W E → Type 0
  Holds xs s = I xs (engine_of s) (world_of s)

  shutdown-Holds :
      (xs : List ChangeEvent) (e : Engine) (w : W) (inputs : List Input)
      → I xs e w
      → Holds (xs ++ []) (rounds env (shutdown env e w) inputs)
  unfolding shutdown shutdown_work rounds
  shutdown-Holds xs e w inputs h =
      let (x, e1, w1) = flush env shutdown_context e w in
      let (y, w2) = env.save_state (snapshot e1.state) w1 in
      subst (λ l. I l e1 (env.subscriber.close w2).1) (sym (append-nil xs))
        (kept.closes xs e1 w2
          (kept.saves xs e1 (snapshot e1.state) w1 (kept.flushes shutdown_context xs e w h)))

  flush_if-Holds :
      (b : Bool) (xs : List ChangeEvent) (inputs : List Input) (e : Engine) (w : W)
      → ((e' : Engine) (w' : W)
          → I xs e' w'
          → Holds (xs ++ taken inputs) (rounds env (running e' w') inputs))
      → I xs e w
      → Holds (xs ++ taken inputs) (rounds env (flush_if env b e w) inputs)
  unfolding flush_if flush_and_go
  flush_if-Holds true xs inputs e w ih h = ih _ _ (kept.flushes background xs e w h)
  flush_if-Holds false xs inputs e w ih h = ih e w h

  rounds-Holds :
      (inputs : List Input) (xs : List ChangeEvent) (e : Engine) (w : W)
      → I xs e w
      → Holds (xs ++ taken inputs) (rounds env (running e w) inputs)
  unfolding rounds round
  rounds-Holds [] xs e w h = subst (λ l. I l e w) (sym (append-nil xs)) h
  rounds-Holds (context_done ∷ inputs) xs e w h = shutdown-Holds xs e w inputs h
  rounds-Holds (channel_closed ∷ inputs) xs e w h = shutdown-Holds xs e w inputs h
  rounds-Holds (ticked ∷ inputs) xs e w h =
      flush_if-Holds (ltb 0 (length e.buffer)) xs inputs e w (rounds-Holds inputs xs) h
  rounds-Holds (event_received ev ∷ inputs) xs e w h =
      let e1 = record e { buffer = e.buffer ++ ev ∷ [] } in
      subst (λ l. Holds l (rounds env (round env (event_received ev) e w) inputs))
        (append_assoc xs (ev ∷ []) (taken inputs))
        (flush_if-Holds _ (xs ++ ev ∷ []) inputs e1 w (rounds-Holds inputs (xs ++ ev ∷ []))
          (kept.receives xs ev e w h))

  -- What a received event, a flush, a save and a close keep holds at the end of the loop, of all
  -- events taken.
  pub loop-IsKept :
      (inputs : List Input) (xs : List ChangeEvent) (e : Engine) (w : W)
      → I xs e w
      → Holds (xs ++ taken inputs) (loop env e w inputs)
  unfolding loop
  loop-IsKept inputs xs e w h = rounds-Holds inputs xs e w h

module _ {W E V : Type 0} (env : Environment W E) (view : W → V) (untouched : IsUntouched env view)
    (close_keeps : (w : W) → view (env.subscriber.close w).1 ≡ view w)
    (I : List ChangeEvent → List ChangeEvent → V → Type 0)
    (receives : (xs buffer : List ChangeEvent) (v : V) (ev : ChangeEvent)
      → I xs buffer v
      → I (xs ++ ev ∷ []) (buffer ++ ev ∷ []) v)
    (flushes : (ctx : Context) (xs : List ChangeEvent) (e : Engine) (w : W)
      → I xs e.buffer (view w)
      → I xs (flush env ctx e w).1.buffer (view (flush env ctx e w).2)) where
  -- The same for an invariant of the buffer and of a view that only publishes change.
  pub loop_rule :
      (inputs : List Input) (xs : List ChangeEvent) (e : Engine) (w : W)
      → I xs e.buffer (view w)
      → I
          (xs ++ taken inputs)
          (engine_of (loop env e w inputs)).buffer
          (view (world_of (loop env e w inputs)))
  loop_rule inputs xs e w h =
      loop-IsKept env (λ xs e w. I xs e.buffer (view w))
        (record {
          receives = λ xs ev e w h. receives xs e.buffer (view w) ev h;
          flushes = flushes;
          saves = λ xs e st w h. subst (I xs e.buffer) (sym (untouched.save_keeps st w)) h;
          closes = λ xs e w h. subst (I xs e.buffer) (sym (close_keeps w)) h;
        })
        inputs xs e w h
