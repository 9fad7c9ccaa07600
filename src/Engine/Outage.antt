-- ===== src/Engine/Outage.antt =====
-- The state of the engine while no publish succeeds.
use cloud_comp_project.Base.{
  ℕ, ◌≡◌, ◌≢◌, refl, Bool, true, false, Option, none, some, List, [], ◌∷◌, ℤ,
}
use cloud_comp_project.Interfaces.{ChangeEvent}
use cloud_comp_project.State.{ReplicationState}
use cloud_comp_project.Retry.Loop.{Run, out_of_fuel, returned}
use cloud_comp_project.Retry.Loop.Rule.{Returns}
use cloud_comp_project.Retry.Breaker.{allow}
use cloud_comp_project.Engine.Publishing.{publishing, Ends, publishing_rule}
use cloud_comp_project.Engine.{
  Context, Environment, Engine, failed_state, after_publish, after_allow, flush_batch, flush,
}
use cloud_comp_project.Engine.Loop.{Input, loop}
use cloud_comp_project.Engine.Loop.Rule.{engine_of, IsKept, loop-IsKept}

-- The state is the given one, but for the count of the failed events.
abbrev pub OnlyFailures : ReplicationState → Option ReplicationState → Type 0
OnlyFailures st after = (n : ℤ) × (after ≡ some (record st { events_failed = n }))

module _ {W E : Type 0} (env : Environment W E)
    (fails : (batch : List ChangeEvent) (w : W) → (env.publisher.publish batch w).0 ≢ none)
    (st : ReplicationState) where
  publishing-Ends :
      (ctx : Context) (batch : List ChangeEvent) (w : W)
      → Returns (Ends (λ w. ⊥) (λ w. Unit {0})) (publishing env ctx batch w)
  publishing-Ends ctx batch w =
      publishing_rule env ctx batch (λ n w. Unit {0}) (λ w. ⊥) (λ w. Unit {0})
        (λ n w lt p done. absurd (fails batch w done)) (λ n w x p failed. tt) (λ n d w p. tt)
        (λ n w le p. tt) w tt

  published :
      (batch : List ChangeEvent) (t : ℕ) (run : Run W E) (e : Engine)
      → Returns (Ends (λ w. ⊥) (λ w. Unit {0})) run
      → OnlyFailures st e.state
      → OnlyFailures st (after_publish env batch t run e).1.state
  unfolding after_publish failed_state
  published batch t (out_of_fuel w) e h p = absurd h
  published batch t (returned (some x) w) e h (n, p) = rw p (_, refl)
  published batch t (returned none w) e h p = absurd h

  allowed :
      (ctx : Context) (batch : List ChangeEvent) (t : ℕ) (b : Bool) (e : Engine) (w : W)
      → OnlyFailures st e.state
      → OnlyFailures st (after_allow env ctx batch t b e w).1.state
  unfolding after_allow
  allowed ctx batch t false e w p = p
  allowed ctx batch t true e w p =
      published batch t (publishing env ctx batch w) e (publishing-Ends ctx batch w) p

  flushed :
      (ctx : Context) (batch : List ChangeEvent) (e : Engine) (w : W)
      → OnlyFailures st e.state
      → OnlyFailures st (flush_batch env ctx batch e w).1.state
  unfolding flush_batch
  flushed ctx [] e w p = p
  flushed ctx (ev ∷ evs) e w p =
      let (b, breaker) = allow (env.now w) e.cloud_breaker in
      allowed ctx (ev ∷ evs) (env.now w) b (record e { buffer = []; cloud_breaker = breaker }) w p

  state-IsKept : IsKept env (λ xs e w. OnlyFailures st e.state)
  unfolding flush
  state-IsKept = record {
    receives = λ xs ev e w h. h;
    flushes = λ ctx xs e w h. flushed ctx e.buffer e w h;
    saves = λ xs e st w h. h;
    closes = λ xs e w h. h;
  }

  -- While every publish fails, the loop changes nothing of the state but the count of the failed
  -- events.
  pub loop-OnlyFailures :
      (inputs : List Input) (e : Engine) (w : W)
      → OnlyFailures st e.state
      → OnlyFailures st (engine_of (loop env e w inputs)).state
  loop-OnlyFailures inputs e w h =
      loop-IsKept env (λ xs e w. OnlyFailures st e.state) state-IsKept inputs [] e w h
