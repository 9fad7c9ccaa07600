-- ===== src/Engine/Delivery.antt =====
-- state-sync-engine/internal/engine/engine.go over a publisher that commits a part of what it is
-- given when it fails: what the cloud database has at the end of the loop.
pub mod Stuck
pub mod Postgres
pub mod Stream
pub mod Loss
use mathlib.Core.List.{append-nil, append_assoc, nil-sublist, Sublist}
use mathlib.Core.List.Sublist
use cloud_comp_project.Base.{
  ℕ, ◌≡◌, ◌≢◌, inl, inr, refl, sym, ap, ◌∙◌, subst, Option, none, some, List, [], ◌∷◌, ◌++◌, take,
  drop, take-append-drop,
}
use cloud_comp_project.Interfaces.{ChangeEvent}
use cloud_comp_project.Replication.Sql.{Statement}
use cloud_comp_project.Replication.Publisher.Rounds.{statements, statements-append, Committed}
use cloud_comp_project.Engine.{Context, Environment, Engine, flush}
use cloud_comp_project.Engine.Views.{IsUntouched}
use cloud_comp_project.Engine.Rule.{Outcome, flush_rule}
use cloud_comp_project.Engine.Loop.{Input, loop}
use cloud_comp_project.Engine.Loop.Rule.{taken, engine_of, world_of, loop_rule}

-- `committed` is the list of the statements of all transactions that the cloud database has
-- committed. A `Publish` that returns nil commits the statements of its events, and one that
-- returns an error those of a number of events from the start; nothing else commits any.
pub record IsPrefixing {W E : Type 0} (env : Environment W E) (committed : W → List Statement)
    : Type 0 where
  pub publish_done :
      (batch : List ChangeEvent) (w : W)
      → (env.publisher.publish batch w).0 ≡ none
      → Committed committed batch w (env.publisher.publish batch w).1
  pub publish_failed :
      (batch : List ChangeEvent) (w : W) (x : E)
      → (env.publisher.publish batch w).0 ≡ some x
      → (k : ℕ) × Committed committed (take k batch) w (env.publisher.publish batch w).1
  pub untouched : IsUntouched env committed
  pub close_keeps : (w : W) → committed (env.subscriber.close w).1 ≡ committed w

-- How the statements in `new` come from a stream of which `done` is delivered: each attempt adds
-- the statements of a run of events that starts behind those done; after a whole batch it is done.
pub data Delivery (stream : List ChangeEvent) : List ChangeEvent → List Statement → Type 0 where
  nothing : Delivery stream [] []
  attempt :
      {done : List ChangeEvent} {new : List Statement} (run rest : List ChangeEvent)
      (ss : List Statement)
      → Delivery stream done new
      → done ++ (run ++ rest) ≡ stream
      → statements run ≡ some ss
      → Delivery stream done (new ++ ss)
  batch :
      {done : List ChangeEvent} {new : List Statement} (run rest : List ChangeEvent)
      (ss : List Statement)
      → Delivery stream done new
      → done ++ (run ++ rest) ≡ stream
      → statements run ≡ some ss
      → Delivery stream (done ++ run) (new ++ ss)

-- With events behind the stream the same runs are runs of it.
longer :
    (done run rest more stream : List ChangeEvent)
    → done ++ (run ++ rest) ≡ stream
    → done ++ (run ++ (rest ++ more)) ≡ stream ++ more
longer done run rest more stream e =
    ap (λ l. done ++ l) (sym (append_assoc run rest more))
    ∙ sym (append_assoc done (run ++ rest) more)
    ∙ ap (λ l. l ++ more) e

extended :
    {stream done : List ChangeEvent} {new : List Statement} (more : List ChangeEvent)
    → Delivery stream done new
    → Delivery (stream ++ more) done new
extended more nothing = nothing
extended {stream} more (attempt {done} run rest ss d e b) =
    attempt run (rest ++ more) ss (extended more d) (longer done run rest more stream e) b
extended {stream} more (batch {done} run rest ss d e b) =
    batch run (rest ++ more) ss (extended more d) (longer done run rest more stream e) b

-- The statements of the events that are done are among the new ones, in order.
pub Delivery-Sublist :
    {stream done : List ChangeEvent} {new : List Statement}
    → Delivery stream done new
    → (ss : List Statement) × (statements done ≡ some ss) × Sublist ss new
unfolding statements
Delivery-Sublist nothing = ([], refl, Sublist.refl [])
Delivery-Sublist (attempt {done} {new} run rest ss d e b) =
    let (ts, built, sub) = Delivery-Sublist d in
    (
      ts,
      built,
      subst (λ l. Sublist l (new ++ ss)) (append-nil ts) (Sublist.append sub (nil-sublist ss)),
    )
Delivery-Sublist (batch {done} {new} run rest ss d e b) =
    let (ts, built, sub) = Delivery-Sublist d in
    (ts ++ ss, statements-append done run ts ss built b, Sublist.append sub (Sublist.refl ss))

module _ {W E : Type 0} (env : Environment W E) (committed : W → List Statement)
    (prefixing : IsPrefixing env committed) (before : List Statement) where
  -- What has been committed since `before`, of a stream that ends with the buffer.
  abbrev pub Delivered : List ChangeEvent → List ChangeEvent → List Statement → Type 0
  Delivered stream buffer log =
      (done : List ChangeEvent) × (new : List Statement) × (done ++ buffer ≡ stream)
      × (log ≡ before ++ new)
      × Delivery stream done new

  -- one more run of events
  added :
      (w w' : W) (run : List ChangeEvent) (new : List Statement)
      → committed w ≡ before ++ new
      → Committed committed run w w'
      → (ss : List Statement) × (statements run ≡ some ss) × (committed w' ≡ before ++ (new ++ ss))
  added w w' run new e (ss, built, c) =
      (ss, built, c ∙ ap (λ l. l ++ ss) e ∙ append_assoc before new ss)

  received-Delivered :
      (stream buffer : List ChangeEvent) (log : List Statement) (ev : ChangeEvent)
      → Delivered stream buffer log
      → Delivered (stream ++ ev ∷ []) (buffer ++ ev ∷ []) log
  received-Delivered stream buffer log ev (done, new, e, l, d) = (
    done,
    new,
    sym (append_assoc done buffer (ev ∷ [])) ∙ ap (λ l. l ++ ev ∷ []) e,
    l,
    extended (ev ∷ []) d,
  )

  done-Delivered :
      (stream buf : List ChangeEvent) (w : W)
      → Delivered stream buf (committed w)
      → (env.publisher.publish buf w).0 ≡ none
      → Delivered stream [] (committed (env.publisher.publish buf w).1)
  done-Delivered stream buf w (done, new, e, l, d) p =
      let all = ap (λ l. done ++ l) (append-nil buf) ∙ e in
      let (ss, built, c) = added w _ buf new l (prefixing.publish_done buf w p) in
      (done ++ buf, new ++ ss, append-nil (done ++ buf) ∙ e, c, batch buf [] ss d all built)

  failed-Delivered :
      (stream buf : List ChangeEvent) (w : W) (x : E)
      → Delivered stream buf (committed w)
      → (env.publisher.publish buf w).0 ≡ some x
      → Delivered stream buf (committed (env.publisher.publish buf w).1)
  failed-Delivered stream buf w x (done, new, e, l, d) p =
      let (k, part) = prefixing.publish_failed buf w x p in
      let (ss, built, c) = added w _ (take k buf) new l part in
      (
        done,
        new ++ ss,
        e,
        c,
        attempt (take k buf) (drop k buf) ss d (ap (λ l. done ++ l) (take-append-drop k buf) ∙ e)
            built,
      )

  pub flush-Outcome :
      (ctx : Context) (stream : List ChangeEvent) (e : Engine) (w : W)
      → Delivered stream e.buffer (committed w)
      → Outcome env committed prefixing.untouched
          (Delivered stream e.buffer)
          (Delivered stream [])
          e.buffer
          (flush env ctx e w)
  flush-Outcome ctx stream e w h =
      flush_rule env committed prefixing.untouched (Delivered stream e.buffer) (Delivered stream [])
        ctx e w (done-Delivered stream e.buffer) (failed-Delivered stream e.buffer)
        (λ empty d. subst (λ l. Delivered stream l (committed w)) empty d) h

  flush-Delivered :
      (ctx : Context) (stream : List ChangeEvent) (e : Engine) (w : W)
      → Delivered stream e.buffer (committed w)
      → Delivered stream (flush env ctx e w).1.buffer (committed (flush env ctx e w).2)
  flush-Delivered ctx stream e w h = elim (flush-Outcome ctx stream e w h) [
    | inl (ok, empty, d) ↦ rw empty d
    | inr (failed, same, d) ↦ rw same d
  ]

  pub loop-Delivered :
      (inputs : List Input) (e : Engine) (w : W)
      → committed w ≡ before
      → Delivered
          (e.buffer ++ taken inputs)
          (engine_of (loop env e w inputs)).buffer
          (committed (world_of (loop env e w inputs)))
  loop-Delivered inputs e w start =
      loop_rule env committed prefixing.untouched prefixing.close_keeps Delivered received-Delivered
        flush-Delivered inputs e.buffer e w ([], [], refl, start ∙ sym (append-nil before), nothing)
