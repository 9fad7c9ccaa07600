-- ===== src/Lock/System/Exclusion.antt =====
-- Mutual exclusion: from a free lock, at most one node acquires it before a lease may be over.
use cloud_comp_project.Base.{
  ℕ, ◌+◌, ◌-◌, ◌≡◌, ◌≢◌, ◌≤◌, ◌<◌, ◌⊎◌, inl, inr, refl, sym, ap, ◌∙◌, subst, true, ◌==◌, ==_iff,
  Bool-cases, none, some, Text, pos, arith, second,
}
use cloud_comp_project.Interfaces.{ok}
use cloud_comp_project.Lock.Bucket.{Body, return}
use cloud_comp_project.Lock.Gcs.{GcsLock}
use cloud_comp_project.Lock.Memory.{Memory, memory_bucket}
use cloud_comp_project.Lock.Race.{turn}
use cloud_comp_project.Lock.System.{
  Call, System, update, Step, runs, waits, Reach, here, later, contenders,
}
use cloud_comp_project.Lock.System.Answers.{Step-time}
use cloud_comp_project.Lock.System.Contention.{
  Ended, Lasts, Contends, acquire-Contends, turn_free, turn_held, turn-Ended,
}

-- From the time `from` on, and before `limit`.
module _ (key : Text) (from limit : ℕ) where
  -- The nodes at a time: nobody has acquired the lock and there is no object, or there is one with a
  -- lease that lasts, and one node alone may have acquired it.
  abbrev Exclusive : System → Type 0
  Exclusive s =
      ((s.world.object key ≡ none) × ((i : ℕ) → Contends key from limit (s.calls i)))
      ⊎ ((i : ℕ) × (b : Body) × (s.world.object key ≡ some b)
          × Lasts key from limit b
          × Ended (s.calls i)
          × ((j : ℕ) → j ≢ i → Contends key from limit (s.calls j)))

  updated :
      (P : Call → Type 0) (f : ℕ → Call) (i : ℕ) (p : Call) (j : ℕ)
      → (j ≡ i → P p)
      → (j ≢ i → P (f j))
      → P (update f i p j)
  updated P f i p j on off = elim (Bool-cases (i == j)) [
    | inl same ↦ rw same (on (sym ((==_iff i j).0 same)))
    | inr other ↦ rw other (off (λ e. ground arith))
  ]

  -- a step while there is an object
  held_step :
      (s : System) (i w : ℕ) (b : Body) (p : Call) (m : Memory)
      → m ≡ s.world
      → s.world.object key ≡ some b
      → Lasts key from limit b
      → Ended (s.calls w)
      → ((j : ℕ) → j ≢ w → Contends key from limit (s.calls j))
      → (w ≡ i → Ended p)
      → (i ≢ w → Contends key from limit p)
      → (s.world.time ≤ m.time) × Exclusive (record { world = m; calls = update s.calls i p })
  held_step s i w b p m same held lasts ended rest won lost = (
    omega (arith, ap (λ (x : Memory). x.time) same),
    inr (
      w,
      b,
      ap (λ (x : Memory). x.object key) same ∙ held,
      lasts,
      updated Ended s.calls i p w won (λ ne. ended),
      λ j ne.
          updated (Contends key from limit) s.calls i p j (λ e. lost (λ q. ne (e ∙ q)))
            (λ other. rest j ne),
    ),
  )

  Step-Exclusive :
      {s t : System}
      → Step s t
      → from ≤ s.world.time
      → s.world.time < limit
      → Exclusive s
      → (s.world.time ≤ t.world.time) × Exclusive t
  Step-Exclusive (waits d) after before e = (omega arith, e)
  Step-Exclusive {s} (runs i) after before (inl (free, all)) =
      let (p, m) = turn memory_bucket (s.calls i) s.world in
      let (time, outcome) =
        turn_free key from limit (s.calls i) s.world (all i) free after before in
      (
        omega (arith, time),
        elim outcome [
          | inl (still, c) ↦
              inl
                (still, λ j. updated (Contends key from limit) s.calls i p j (λ e. c) (λ ne. all j))
          | inr (b, held, lasts, ended) ↦ inr (
            i,
            b,
            held,
            lasts,
            updated Ended s.calls i p i (λ e. ended) (λ ne. absurd (ne refl)),
            λ j ne.
                updated (Contends key from limit) s.calls i p j (λ e. absurd (ne e))
                  (λ other. all j),
          )
        ],
      )
  Step-Exclusive {s} (runs i) after before (inr (w, b, held, lasts, ended, rest)) =
      elim (Bool-cases (i == w)) [
        | inl mine ↦
            let e = (==_iff i w).0 mine in
            let (same, done) = turn-Ended key from limit (s.calls i) s.world (rw e ended) in
            held_step s i w b _ _ same held lasts ended rest (λ q. done) (λ ne. absurd (ne e))
        | inr other ↦
            let ne : i ≢ w = λ e. ground arith in
            let (same, c) =
              turn_held key from limit (s.calls i) s.world b (rest i ne) held lasts after before in
            held_step s i w b _ _ same held lasts ended rest (λ q. absurd (ne (sym q))) (λ q. c)
      ]

  Reach-Exclusive :
      {s t : System}
      → Reach s t
      → from ≤ s.world.time
      → Exclusive s
      → t.world.time < limit
      → (s.world.time ≤ t.world.time) × Exclusive t
  Reach-Exclusive here after e before = (omega arith, e)
  Reach-Exclusive (later r step) after e before =
      let passed = Step-time step in
      let (time, e') = Reach-Exclusive r after e (omega (arith, passed, before)) in
      (
        omega (arith, time, passed),
        (Step-Exclusive step (omega (arith, time, after)) (omega (arith, passed, before)) e').1,
      )

  lost : (p : Call) → Contends key from limit p → p ≢ return (ok true)
  lost p c e = subst (Contends key from limit) e c refl

  only_winner :
      (s : System) (i j : ℕ)
      → Exclusive s
      → s.calls i ≡ return (ok true)
      → s.calls j ≡ return (ok true)
      → i ≡ j
  only_winner s i j (inl (free, all)) won won' = absurd (lost (s.calls i) (all i) won)
  only_winner s i j (inr (w, b, held, lasts, ended, rest)) won won' =
      the_winner i won ∙ sym (the_winner j won')
    where
      the_winner : (k : ℕ) → s.calls k ≡ return (ok true) → k ≡ w
      the_winner k e = elim (Bool-cases (k == w)) [
        | inl same ↦ (==_iff k w).0 same
        | inr other ↦ absurd (lost (s.calls k) (rest k (λ q. ground arith)) e)
      ]

-- If the lock is free, any number of nodes call `Acquire` on it, their requests and the passing of
-- time interleave in any order, and the clock stays more than a second below the time at which the
-- first of their leases can run out, then at most one of them is told that it has the lock.
pub acquire_exclusive :
    (nodes : ℕ → GcsLock) (key : Text) (ttl : ℕ) (w : Memory) (t : System) (i j : ℕ)
    → w.object key ≡ none
    → Reach (contenders nodes key (pos ttl) w) t
    → t.world.time + second < w.time + ttl
    → t.calls i ≡ return (ok true)
    → t.calls j ≡ return (ok true)
    → i ≡ j
acquire_exclusive nodes key ttl w t i j free r early won won' =
    let limit = w.time + ttl - second in
    let acquires = λ (k : ℕ). acquire-Contends key w.time limit (nodes k) ttl (omega arith) in
    let (time, e) =
      Reach-Exclusive key w.time limit r (omega arith) (inl (free, acquires)) (omega arith) in
    only_winner key w.time limit t i j e won won'
