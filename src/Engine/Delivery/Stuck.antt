-- ===== src/Engine/Delivery/Stuck.antt =====
-- An event in the buffer that has no statement.
use mathlib.Core.List.{append_assoc}
use cloud_comp_project.Base.{◌≡◌, inl, inr, refl, ap, ◌∙◌, none, List, [], ◌∷◌, ◌++◌}
use cloud_comp_project.Interfaces.{ChangeEvent, Result, ok, err}
use cloud_comp_project.Replication.Sql.{SqlError, Statement, build_dml}
use cloud_comp_project.Replication.Publisher.Rounds.{statements, add_statement}
use cloud_comp_project.Engine.{Context, Environment, Engine, flush}
use cloud_comp_project.Engine.Delivery.{IsPrefixing}
use cloud_comp_project.Engine.Rule.{flush_rule}
use cloud_comp_project.Engine.Loop.{Input, loop}
use cloud_comp_project.Engine.Loop.Rule.{taken, engine_of, loop_rule}

add_none : (r : Result SqlError Statement) → add_statement r none ≡ none
add_none (err e) = refl
add_none (ok s) = refl

pub statements-none :
    (xs ys : List ChangeEvent) (ev : ChangeEvent) (e : SqlError)
    → build_dml ev ≡ err e
    → statements (xs ++ (ev ∷ ys)) ≡ none
unfolding statements
statements-none [] ys ev e p = rw p refl
statements-none (x ∷ xs) ys ev e p =
    ap (add_statement (build_dml x)) (statements-none xs ys ev e p) ∙ add_none (build_dml x)

not_empty : (xs : List ChangeEvent) → statements xs ≡ none → xs ≡ [] → ⊥
unfolding statements
not_empty [] h e = cc
not_empty (x ∷ xs) h e = cc

module _ {W E : Type 0} (env : Environment W E) (committed : W → List Statement)
    (prefixing : IsPrefixing env committed) where
  flush_stuck :
      (ctx : Context) (e : Engine) (w : W)
      → statements e.buffer ≡ none
      → (flush env ctx e w).1.buffer ≡ e.buffer
  flush_stuck ctx e w h =
      elim (flush_rule env committed prefixing.untouched (λ log. Unit {0}) (λ log. ⊥) ctx e w
        (λ w1 p done. let (ss, built, c) = prefixing.publish_done e.buffer w1 done in cc)
        (λ w1 x p failed. tt) (λ empty p. not_empty e.buffer h empty) tt) [
          | inl (done, empty, never) ↦ absurd never
          | inr (failed, same, p) ↦ same
        ]

  -- The buffer is all of the stream, and holds the event.
  abbrev Stuck : List ChangeEvent → ChangeEvent → List ChangeEvent → List ChangeEvent → Type 0
  Stuck xs ev stream buffer =
      (buffer ≡ stream) × (ys : List ChangeEvent) × (buffer ≡ xs ++ (ev ∷ ys))

  received-Stuck :
      (xs : List ChangeEvent) (ev : ChangeEvent) (stream buffer : List ChangeEvent)
      (next : ChangeEvent)
      → Stuck xs ev stream buffer
      → Stuck xs ev (stream ++ next ∷ []) (buffer ++ next ∷ [])
  received-Stuck xs ev stream buffer next (same, ys, held) = (
    ap (λ l. l ++ next ∷ []) same,
    ys ++ next ∷ [],
    ap (λ l. l ++ next ∷ []) held ∙ append_assoc xs (ev ∷ ys) (next ∷ []),
  )

  flush-Stuck :
      (xs : List ChangeEvent) (ev : ChangeEvent) (x : SqlError)
      → build_dml ev ≡ err x
      → (ctx : Context) (stream : List ChangeEvent) (e : Engine) (w : W)
      → Stuck xs ev stream e.buffer
      → Stuck xs ev stream (flush env ctx e w).1.buffer
  flush-Stuck xs ev x bad ctx stream e w (same, ys, held) =
      let kept = flush_stuck ctx e w (ap statements held ∙ statements-none xs ys ev x bad) in
      (kept ∙ same, ys, kept ∙ held)

  pub loop_stuck :
      (inputs : List Input) (xs ys : List ChangeEvent) (ev : ChangeEvent) (x : SqlError)
      (e : Engine) (w : W)
      → e.buffer ≡ xs ++ (ev ∷ ys)
      → build_dml ev ≡ err x
      → (engine_of (loop env e w inputs)).buffer ≡ e.buffer ++ taken inputs
  loop_stuck inputs xs ys ev x e w held bad =
      (loop_rule env committed prefixing.untouched prefixing.close_keeps
        (λ stream buffer log. Stuck xs ev stream buffer)
        (λ stream buffer log next h. received-Stuck xs ev stream buffer next h)
        (flush-Stuck xs ev x bad) inputs e.buffer e w (refl, ys, held)).0
