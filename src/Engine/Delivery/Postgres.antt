-- ===== src/Engine/Delivery/Postgres.antt =====
-- The engine over the publisher of state-sync-engine/internal/replication/publisher.go: what its
-- loop leaves in the cloud database and in its buffer.
use cloud_comp_project.Base.{ℕ, ◌*◌, ◌<◌, ◌≡◌, refl, Option, none, some, List, ◌∷◌, ◌++◌, take}
use mathlib.Core.List.{Sublist}
use cloud_comp_project.Interfaces.{ChangeEvent, err}
use cloud_comp_project.Replication.Sql.{SqlError, Statement, build_dml}
use cloud_comp_project.Replication.Publisher.{Pool, PublisherError, as_publisher}
use cloud_comp_project.Replication.Publisher.Rounds.{IsTransactional, statements, Committed}
use cloud_comp_project.Replication.Publisher.Batches.{publish_batchwise}
use cloud_comp_project.Replication.Publisher.Batches as Batches
use cloud_comp_project.Engine.{Environment, Engine}
use cloud_comp_project.Engine.Views.{IsUntouched}
use cloud_comp_project.Engine.Delivery.{IsPrefixing, Delivery, Delivery-Sublist, loop-Delivered}
use cloud_comp_project.Engine.Delivery.Stuck.{loop_stuck}
use cloud_comp_project.Engine.Loop.{Input, loop}
use cloud_comp_project.Engine.Loop.Rule.{taken, engine_of, world_of}

of_success :
    {W E : Type 0} (committed : W → List Statement) (size : ℕ) (evs : List ChangeEvent) (w : W)
    (r : Option (PublisherError E) × W)
    → Batches.Outcome committed size evs w r
    → r.0 ≡ none
    → Committed committed evs w r.1
of_success committed size evs w (none, w') h p = h
of_success committed size evs w (some e, w') h p = cc

of_failure :
    {W E : Type 0} (committed : W → List Statement) (size : ℕ) (evs : List ChangeEvent) (w : W)
    (r : Option (PublisherError E) × W) (x : PublisherError E)
    → Batches.Outcome committed size evs w r
    → r.0 ≡ some x
    → (k : ℕ) × Committed committed (take k evs) w r.1
of_failure committed size evs w (none, w') x h p = cc
of_failure committed size evs w (some e, w') x (ne, k, c) p = (k * size, c)

-- the engine's surroundings with the publisher over a pool
abbrev pub over_pool :
    {W T E : Type 0}
    → Environment W (PublisherError E)
    → Pool W T E
    → ℕ
    → Environment W (PublisherError E)
over_pool env pool size = record env {
  publisher = as_publisher (record { pool = some pool; batch_size = size });
}

module _ {W T E : Type 0} (env : Environment W (PublisherError E)) (pool : Pool W T E)
    (committed pending : W → List Statement)
    (transactional : IsTransactional pool committed pending) (size : ℕ) (positive : 0 < size)
    (untouched : IsUntouched (over_pool env pool size) committed)
    (close_keeps : (w : W) → committed (env.subscriber.close w).1 ≡ committed w) where
  pub over_pool-IsPrefixing : IsPrefixing (over_pool env pool size) committed
  over_pool-IsPrefixing = record {
    publish_done = λ batch w p.
        of_success committed size batch w _
          (publish_batchwise pool committed pending transactional size batch w positive) p;
    publish_failed = λ batch w x p.
        of_failure committed size batch w _ x
          (publish_batchwise pool committed pending transactional size batch w positive) p;
    untouched = untouched;
    close_keeps = close_keeps;
  }

  -- If only the publisher's transactions change the cloud database, then at the end of the loop,
  -- whatever its inputs and whichever calls fail, the events that were buffered or taken from the
  -- stream are those done, then those buffered. The new statements of the database are those of
  -- attempts, each of a run of consecutive events that starts behind the events done so far, and
  -- the statements of the events done are among them, in order: each is delivered at least once.
  pub loop_delivers :
      (inputs : List Input) (e : Engine) (w : W)
      → let s = loop (over_pool env pool size) e w inputs in
        let stream = e.buffer ++ taken inputs in
        (done : List ChangeEvent) × (new : List Statement) × (ss : List Statement) × (done
            ++ (engine_of s).buffer
          ≡ stream)
        × (committed (world_of s) ≡ committed w ++ new)
        × Delivery stream done new
        × (statements done ≡ some ss)
        × Sublist ss new
  loop_delivers inputs e w =
      let (done, new, all, log, d) =
        loop-Delivered (over_pool env pool size) committed over_pool-IsPrefixing (committed w)
          inputs e w refl in
      let (ss, built, sub) = Delivery-Sublist d in (done, new, ss, all, log, d, built, sub)

  -- If the buffer holds an event that has no statement, then whatever the inputs of the loop and
  -- whichever calls fail, no event leaves the buffer any more: at the end it is the buffer of the
  -- start, followed by the events taken from the stream.
  pub unbuildable_event_blocks :
      (inputs : List Input) (xs ys : List ChangeEvent) (ev : ChangeEvent) (x : SqlError)
      (e : Engine) (w : W)
      → e.buffer ≡ xs ++ (ev ∷ ys)
      → build_dml ev ≡ err x
      → (engine_of (loop (over_pool env pool size) e w inputs)).buffer ≡ e.buffer ++ taken inputs
  unbuildable_event_blocks inputs xs ys ev x e w held bad =
      loop_stuck (over_pool env pool size) committed over_pool-IsPrefixing inputs xs ys ev x e w
        held bad
