-- ===== src/Engine/Conservation.antt =====
-- No event is lost, reordered or taken twice between the stream, the buffer and the publisher.
use mathlib.Core.List.{append-nil}
use cloud_comp_project.Base.{
  ◌≡◌, ◌≢◌, ◌⊎◌, inl, inr, refl, sym, ap, ◌∙◌, Option, none, some, List, [], ◌++◌,
}
use cloud_comp_project.Interfaces.{ChangeEvent}
use cloud_comp_project.Engine.Rule.{flush_rule}
use cloud_comp_project.Engine.Views.{IsUntouched}
use cloud_comp_project.Engine.{Context, Environment, Engine, FlushError, flush}

-- `delivered` is the list of the events that `Publish` has been given by calls that returned nil,
-- in order: such a call adds its batch at the end, and nothing else changes the list. (Of what a call
-- that failed was given, the cloud database may have some whole batches: Replication.Publisher.)
pub record IsLogged {W E : Type 0} (env : Environment W E) (delivered : W → List ChangeEvent)
    : Type 0 where
  pub publish_done :
      (batch : List ChangeEvent) (w : W)
      → (env.publisher.publish batch w).0 ≡ none
      → delivered (env.publisher.publish batch w).1 ≡ delivered w ++ batch
  pub publish_failed :
      (batch : List ChangeEvent) (w : W) (x : E)
      → (env.publisher.publish batch w).0 ≡ some x
      → delivered (env.publisher.publish batch w).1 ≡ delivered w
  pub untouched : IsUntouched env delivered
  pub close_keeps : (w : W) → delivered (env.subscriber.close w).1 ≡ delivered w

module _ {W E : Type 0} (env : Environment W E) (delivered : W → List ChangeEvent)
    (logged : IsLogged env delivered) where
  -- A batch is either delivered whole, and the buffer left empty, or put back with nothing delivered.
  abbrev pub Flushed : List ChangeEvent → W → Option (FlushError E) × Engine × W → Type 0
  Flushed batch w r =
      ((r.0 ≡ none) × (r.1.buffer ≡ []) × (delivered r.2 ≡ delivered w ++ batch))
      ⊎ ((r.0 ≢ none) × (r.1.buffer ≡ batch) × (delivered r.2 ≡ delivered w))

  -- If only successful publishes add to the publisher's log, each its batch, then a flush that
  -- returns nil has delivered the whole buffer, in order, in one batch, and emptied it; and a flush
  -- that returns an error has delivered nothing and left every event in the buffer, in order.
  pub flush_all_or_nothing :
      (ctx : Context) (e : Engine) (w : W) → Flushed e.buffer w (flush env ctx e w)
  flush_all_or_nothing ctx e w =
      flush_rule env delivered logged.untouched (λ ds. ds ≡ delivered w)
        (λ ds. ds ≡ delivered w ++ e.buffer) ctx e w
        (λ w1 p done. logged.publish_done e.buffer w1 done ∙ ap (λ l. l ++ e.buffer) p)
        (λ w1 x p failed. logged.publish_failed e.buffer w1 x failed ∙ p)
        (λ empty p. rw empty (p ∙ sym (append-nil (delivered w)))) refl

  -- The delivered events, then the buffered ones.
  pub flush-conserves :
      (ctx : Context) (e : Engine) (w : W)
      → delivered (flush env ctx e w).2 ++ (flush env ctx e w).1.buffer ≡ delivered w ++ e.buffer
  flush-conserves ctx e w = elim (flush_all_or_nothing ctx e w) [
    | inl (done, empty, all) ↦ rw (empty, all) (append-nil _)
    | inr (failed, same, kept) ↦ rw (same, kept)
  ]
