-- ===== src/Engine/Position.antt =====
-- The position and the counter that a flush records.
use cloud_comp_project.Base.{
  ℕ, ◌≤◌, ◌≡◌, ◌⊎◌, inl, inr, refl, sym, Bool, true, false, ltb, Option, none, some, List, [], ◌∷◌,
  arith, add_int64, length, if◌then◌else◌,
}
use cloud_comp_project.Interfaces.{Lsn, ChangeEvent}
use cloud_comp_project.Retry.Loop.{Run, out_of_fuel, returned}
use cloud_comp_project.Retry.Breaker.{allow}
use cloud_comp_project.State.{ReplicationState}
use cloud_comp_project.Engine.{
  Context, Environment, Engine, max_lsn, flushed_state, after_publish, after_allow, flush_batch,
  flush,
}

abbrev pub AreUpTo : Lsn → List ChangeEvent → Type 0
AreUpTo l [] = Unit
AreUpTo l (ev ∷ evs) = (ev.lsn ≤ l) × AreUpTo l evs

abbrev pub Has : Lsn → List ChangeEvent → Type 0
Has l [] = ⊥
Has l (ev ∷ evs) = (ev.lsn ≡ l) ⊎ Has l evs

chosen :
    (P : Lsn → Type 0) (evs : List ChangeEvent) (b : Bool) (x y : Lsn)
    → (b ≡ true → P (max_lsn x evs))
    → (b ≡ false → P (max_lsn y evs))
    → P (max_lsn (if b then x else y) evs)
chosen P evs true x y f g = f refl
chosen P evs false x y f g = g refl

max_lsn_above : (acc : Lsn) (evs : List ChangeEvent) → acc ≤ max_lsn acc evs
unfolding max_lsn
max_lsn_above acc [] = omega arith
max_lsn_above acc (ev ∷ evs) =
    chosen (λ l. acc ≤ l) evs (ltb acc ev.lsn) ev.lsn acc
      (λ above. ground (arith, max_lsn_above ev.lsn evs)) (λ below. max_lsn_above acc evs)

pub max_lsn-AreUpTo : (acc : Lsn) (evs : List ChangeEvent) → AreUpTo (max_lsn acc evs) evs
unfolding max_lsn
max_lsn-AreUpTo acc [] = tt
max_lsn-AreUpTo acc (ev ∷ evs) =
    chosen (λ l. AreUpTo l (ev ∷ evs)) evs (ltb acc ev.lsn) ev.lsn acc
      (λ above. (max_lsn_above ev.lsn evs, max_lsn-AreUpTo ev.lsn evs))
      (λ below. (ground (arith, max_lsn_above acc evs), max_lsn-AreUpTo acc evs))

taken_here :
    (l acc : Lsn) (ev : ChangeEvent) (evs : List ChangeEvent)
    → (l ≡ ev.lsn) ⊎ Has l evs
    → (l ≡ acc) ⊎ Has l (ev ∷ evs)
taken_here l acc ev evs (inl same) = inr (inl (sym same))
taken_here l acc ev evs (inr later) = inr (inr later)

taken_later :
    (l acc : Lsn) (ev : ChangeEvent) (evs : List ChangeEvent)
    → (l ≡ acc) ⊎ Has l evs
    → (l ≡ acc) ⊎ Has l (ev ∷ evs)
taken_later l acc ev evs (inl same) = inl same
taken_later l acc ev evs (inr later) = inr (inr later)

pub max_lsn-Has :
    (acc : Lsn) (evs : List ChangeEvent) → (max_lsn acc evs ≡ acc) ⊎ Has (max_lsn acc evs) evs
unfolding max_lsn
max_lsn-Has acc [] = inl refl
max_lsn-Has acc (ev ∷ evs) =
    chosen (λ l. (l ≡ acc) ⊎ Has l (ev ∷ evs)) evs (ltb acc ev.lsn) ev.lsn acc
      (λ above. taken_here _ acc ev evs (max_lsn-Has ev.lsn evs))
      (λ below. taken_later _ acc ev evs (max_lsn-Has acc evs))

-- The state after a batch: its position is the highest of the batch, 0 if that has no position
-- above it, and the batch is counted.
abbrev pub Recorded : List ChangeEvent → ReplicationState → Option ReplicationState → Type 0
Recorded batch st after =
    (st' : ReplicationState) × (after ≡ some st')
    × AreUpTo st'.last_lsn batch
    × ((st'.last_lsn ≡ 0) ⊎ Has st'.last_lsn batch)
    × (st'.events_processed ≡ add_int64 st.events_processed (length batch))

module _ {W E : Type 0} (env : Environment W E) where
  -- The state is that after a flush of a batch, at a time that the clock has shown.
  abbrev pub IsFlushed :
      Engine → List ChangeEvent → ReplicationState → Option ReplicationState → Type 0
  IsFlushed e batch st after = (w : W) × (after ≡ some (flushed_state e.cfg batch (env.now w) st))

  published :
      (batch : List ChangeEvent) (t : ℕ) (run : Run W E) (e : Engine) (st : ReplicationState)
      → e.state ≡ some st
      → (after_publish env batch t run e).0 ≡ none
      → IsFlushed e batch st (after_publish env batch t run e).1.state
  unfolding after_publish
  published batch t (out_of_fuel w) e st p h = cc
  published batch t (returned (some x) w) e st p h = cc
  published batch t (returned none w) e st p h = rw p (_, refl)

  allowed :
      (ctx : Context) (batch : List ChangeEvent) (t : ℕ) (b : Bool) (e : Engine) (w : W)
      (st : ReplicationState)
      → e.state ≡ some st
      → (after_allow env ctx batch t b e w).0 ≡ none
      → IsFlushed e batch st (after_allow env ctx batch t b e w).1.state
  unfolding after_allow
  allowed ctx batch t false e w st p h = cc
  allowed ctx batch t true e w st p h = published batch t _ e st p h

  flushed :
      (ctx : Context) (ev : ChangeEvent) (evs : List ChangeEvent) (e : Engine) (w : W)
      (st : ReplicationState)
      → e.state ≡ some st
      → (flush_batch env ctx (ev ∷ evs) e w).0 ≡ none
      → IsFlushed e (ev ∷ evs) st (flush_batch env ctx (ev ∷ evs) e w).1.state
  unfolding flush_batch
  flushed ctx ev evs e w st p h =
      let (b, breaker) = allow (env.now w) e.cloud_breaker in
      allowed ctx (ev ∷ evs) (env.now w) b (record e { buffer = []; cloud_breaker = breaker }) w st
        p h

  pub flush-IsFlushed :
      (ctx : Context) (ev : ChangeEvent) (evs : List ChangeEvent) (e : Engine) (w : W)
      (st : ReplicationState)
      → e.buffer ≡ ev ∷ evs
      → e.state ≡ some st
      → (flush env ctx e w).0 ≡ none
      → IsFlushed e (ev ∷ evs) st (flush env ctx e w).1.state
  unfolding flush
  flush-IsFlushed ctx ev evs e w st b p h = rw b (flushed ctx ev evs e w st p (rw b at h))

  -- A flush of some events that returns nil records the highest of their positions, which is one of
  -- theirs or 0, and adds their number to the processed events.
  pub flush_records :
      (ctx : Context) (ev : ChangeEvent) (evs : List ChangeEvent) (e : Engine) (w : W)
      (st : ReplicationState)
      → e.buffer ≡ ev ∷ evs
      → e.state ≡ some st
      → (flush env ctx e w).0 ≡ none
      → Recorded (ev ∷ evs) st (flush env ctx e w).1.state
  unfolding flushed_state
  flush_records ctx ev evs e w st b p h =
      let (t, q) = flush-IsFlushed ctx ev evs e w st b p h in
      (_, q, max_lsn-AreUpTo 0 (ev ∷ evs), max_lsn-Has 0 (ev ∷ evs), refl)
