-- ===== src/Engine/Rule.antt =====
-- The proof rule of a flush: a view of the world that only publishes change, `P` of it before each
-- publish, and `Q` of it after a publish that returns nil.
use mathlib.Core.List.{append-nil}
use cloud_comp_project.Base.{
  ℕ, ◌≡◌, ◌≢◌, ◌⊎◌, inl, inr, refl, sym, ap, ◌∙◌, subst, Bool, true, false, Option, none, some,
  List, [], ◌∷◌, ◌++◌,
}
use cloud_comp_project.Interfaces.{ChangeEvent}
use cloud_comp_project.Retry.Loop.{Run, out_of_fuel, returned}
use cloud_comp_project.Retry.Loop.Rule.{Returns}
use cloud_comp_project.Retry.Breaker.{allow}
use cloud_comp_project.Engine.Publishing.{publishing, Ends, publishing_rule}
use cloud_comp_project.Engine.Views.{
  IsUntouched, acknowledge_max_keeps, report_flush_keeps, report_failure_keeps,
}
use cloud_comp_project.Engine.{
  Context, Environment, Engine, FlushError, max_lsn, after_publish, after_allow, flush_batch, flush,
}

module _ {W E V : Type 0} (env : Environment W E) (view : W → V)
    (untouched : IsUntouched env view) where
  -- The two outcomes of a flush.
  abbrev pub Outcome :
      (V → Type 0) → (V → Type 0) → List ChangeEvent → Option (FlushError E) × Engine × W → Type 0
  Outcome P Q batch r =
      ((r.0 ≡ none) × (r.1.buffer ≡ []) × Q (view r.2))
      ⊎ ((r.0 ≢ none) × (r.1.buffer ≡ batch) × P (view r.2))

  put_back : (batch buffer : List ChangeEvent) → buffer ≡ [] → batch ++ buffer ≡ batch
  put_back batch buffer p = ap (λ l. batch ++ l) p ∙ append-nil batch

  module _ (P Q : V → Type 0) (batch : List ChangeEvent)
      (publishes : (w : W)
        → P (view w)
        → (env.publisher.publish batch w).0 ≡ none
        → Q (view (env.publisher.publish batch w).1))
      (fails : (w : W) (x : E)
        → P (view w)
        → (env.publisher.publish batch w).0 ≡ some x
        → P (view (env.publisher.publish batch w).1)) where
    published :
        (t : ℕ) (run : Run W E) (e : Engine)
        → Returns (Ends (λ w. Q (view w)) (λ w. P (view w))) run
        → e.buffer ≡ []
        → Outcome P Q batch (after_publish env batch t run e)
    unfolding after_publish
    published t (out_of_fuel w) e h p = absurd h
    published t (returned (some x) w) e h p = inr (
      (λ q. cc),
      put_back batch e.buffer p,
      subst P (sym (report_failure_keeps env view untouched batch w)) h,
    )
    published t (returned none w) e h p = inl (
      refl,
      p,
      subst Q
          (sym (
            untouched.save_keeps _ _
            ∙ report_flush_keeps env view untouched batch t _ _
            ∙ acknowledge_max_keeps env view untouched (max_lsn 0 batch) w))
          h,
    )

    allowed :
        (ctx : Context) (t : ℕ) (b : Bool) (e : Engine) (w : W)
        → e.buffer ≡ []
        → P (view w)
        → Outcome P Q batch (after_allow env ctx batch t b e w)
    unfolding after_allow
    allowed ctx t false e w p h = inr ((λ q. cc), put_back batch e.buffer p, h)
    allowed ctx t true e w p h =
        published t (publishing env ctx batch w) e
          (publishing_rule env ctx batch (λ n w. P (view w)) (λ w. Q (view w)) (λ w. P (view w))
            (λ n w lt p done. publishes w p done) (λ n w x p failed. fails w x p failed)
            (λ n d w p. subst P (sym (untouched.select_keeps ctx d w)) p) (λ n w le p. p) w h)
          p

  flush_batch_rule :
      (P Q : V → Type 0) (ctx : Context) (batch : List ChangeEvent) (e : Engine) (w : W)
      → ((w : W)
          → P (view w)
          → (env.publisher.publish batch w).0 ≡ none
          → Q (view (env.publisher.publish batch w).1))
      → ((w : W) (x : E)
          → P (view w)
          → (env.publisher.publish batch w).0 ≡ some x
          → P (view (env.publisher.publish batch w).1))
      → (batch ≡ [] → P (view w) → Q (view w))
      → e.buffer ≡ batch
      → P (view w)
      → Outcome P Q batch (flush_batch env ctx batch e w)
  unfolding flush_batch
  flush_batch_rule P Q ctx [] e w publishes fails nothing p h = inl (refl, p, nothing refl h)
  flush_batch_rule P Q ctx (ev ∷ evs) e w publishes fails nothing p h =
      let (b, breaker) = allow (env.now w) e.cloud_breaker in
      allowed P Q (ev ∷ evs) publishes fails ctx (env.now w) b
        (record e { buffer = []; cloud_breaker = breaker }) w refl h

  -- What one publish of the buffer does to the view holds of the whole flush.
  pub flush_rule :
      (P Q : V → Type 0) (ctx : Context) (e : Engine) (w : W)
      → ((w : W)
          → P (view w)
          → (env.publisher.publish e.buffer w).0 ≡ none
          → Q (view (env.publisher.publish e.buffer w).1))
      → ((w : W) (x : E)
          → P (view w)
          → (env.publisher.publish e.buffer w).0 ≡ some x
          → P (view (env.publisher.publish e.buffer w).1))
      → (e.buffer ≡ [] → P (view w) → Q (view w))
      → P (view w)
      → Outcome P Q e.buffer (flush env ctx e w)
  unfolding flush
  flush_rule P Q ctx e w publishes fails nothing h =
      flush_batch_rule P Q ctx e.buffer e w publishes fails nothing refl h
