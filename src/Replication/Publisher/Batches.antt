-- ===== src/Replication/Publisher/Batches.antt =====
-- What the cloud database is given by `Publish`: whole batches, in order.
use mathlib.Core.List.{append-nil, append_assoc}
use cloud_comp_project.Base.{
  ℕ, zero, suc, ◌+◌, ◌*◌, ◌≤◌, ◌<◌, ◌≡◌, ◌≢◌, inl, inr, refl, sym, ap, ◌∙◌, subst, Option, none,
  some, List, [], ◌∷◌, ◌++◌, arith, length, take, drop, take-append-drop, length-drop,
}
use cloud_comp_project.Interfaces.{ChangeEvent}
use cloud_comp_project.Replication.Sql.{Statement}
use cloud_comp_project.Replication.Publisher.{
  Pool, PublisherError, batches_cut_off, publish_batch, publish_batches, publish_on, publish,
}
use cloud_comp_project.Replication.Publisher.Rounds.{
  IsTransactional, statements, statements-append, Committed, Round, batch-Round,
}

take-nil : (n : ℕ) → take {A = ChangeEvent} n [] ≡ []
take-nil zero = refl
take-nil (suc n) = refl

take_add : (m n : ℕ) (evs : List ChangeEvent) → take (m + n) evs ≡ take m evs ++ take n (drop m evs)
take_add zero n evs = ap (λ j. take j evs) (omega arith)
take_add (suc m) n [] = take-nil (suc m + n) ∙ sym (take-nil n)
take_add (suc m) n (ev ∷ evs) =
    let e : suc m + n ≡ suc (m + n) = omega arith in
    ap (λ j. take j (ev ∷ evs)) e ∙ ap (λ l. ev ∷ l) (take_add m n evs)

-- What `Publish` has done, with batches of a size: all, or a number of whole batches.
abbrev pub Outcome :
    {W E : Type 0}
    → (W → List Statement)
    → ℕ
    → List ChangeEvent
    → W
    → Option (PublisherError E) × W
    → Type 0
Outcome committed size evs w (none, w') = Committed committed evs w w'
Outcome committed size evs w (some e, w') =
    (e ≢ batches_cut_off) × (k : ℕ) × Committed committed (take (k * size) evs) w w'

module _ {W T E : Type 0} (pool : Pool W T E) (committed pending : W → List Statement)
    (transactional : IsTransactional pool committed pending) where
  none_committed :
      (evs : List ChangeEvent) (w w' : W) → committed w' ≡ committed w → Committed committed [] w w'
  unfolding statements
  none_committed evs w w' h = ([], refl, h ∙ sym (append-nil (committed w)))

  joined_batches :
      (xs ys zs : List ChangeEvent) (w w1 w2 : W)
      → xs ++ ys ≡ zs
      → Committed committed xs w w1
      → Committed committed ys w1 w2
      → Committed committed zs w w2
  joined_batches xs ys zs w w1 w2 e (ss, built, added) (ts, built', added') = (
    ss ++ ts,
    rw (← e) (statements-append xs ys ss ts built built'),
    added' ∙ ap (λ l. l ++ ts) added ∙ append_assoc (committed w) ss ts,
  )

  further :
      (size : ℕ) (evs : List ChangeEvent) (w w1 : W) (r : Option (PublisherError E) × W)
      → Committed committed (take size evs) w w1
      → Outcome committed size (drop size evs) w1 r
      → Outcome committed size evs w r
  further size evs w w1 (none, w2) h rest =
      joined_batches (take size evs) (drop size evs) evs w w1 w2 (take-append-drop size evs) h rest
  further size evs w w1 (some e, w2) h (ne, k, rest) =
      let e : size + k * size ≡ suc k * size = ground arith in
      (
        ne,
        suc k,
        joined_batches (take size evs) _ _ w w1 w2
            (sym (take_add size (k * size) evs) ∙ ap (λ n. take n evs) e) h rest,
      )

  Round-Outcome :
      (size : ℕ) (evs : List ChangeEvent) (w : W) (r : Option (PublisherError E) × W) (fuel : ℕ)
      → Round committed (take size evs) w r
      → ((w1 : W)
          → Outcome committed size
              (drop size evs)
              w1
              (publish_batches pool size fuel (drop size evs) w1))
      → Outcome {E = E} committed size evs w (elim r.0 [
        | none ↦ publish_batches pool size fuel (drop size evs) r.1
        | some e ↦ (some e, r.1)
      ])
  Round-Outcome size evs w (none, w1) fuel h rest =
      further size evs w w1 (publish_batches pool size fuel (drop size evs) w1) h (rest w1)
  Round-Outcome size evs w (some e, w1) fuel (ne, inl same) rest = (
    ne,
    0,
    subst (λ n. Committed committed (take n evs) w w1) {x = 0} (omega arith)
        (none_committed evs w w1 same),
  )
  Round-Outcome size evs w (some e, w1) fuel (ne, inr all) rest =
      (ne, 1, subst (λ n. Committed committed (take n evs) w w1) (omega arith) all)

  batches-Outcome :
      (size fuel : ℕ) (evs : List ChangeEvent) (w : W)
      → 0 < size
      → length evs ≤ fuel
      → Outcome committed size evs w (publish_batches pool size fuel evs w)
  unfolding publish_batches
  batches-Outcome size fuel [] w h enough = none_committed [] w w refl
  batches-Outcome size zero (ev ∷ evs) w h enough = absurd (omega arith)
  batches-Outcome size (suc fuel) (ev ∷ evs) w h enough =
      Round-Outcome size (ev ∷ evs) w (publish_batch pool (take size (ev ∷ evs)) w) fuel
        (batch-Round pool committed pending transactional (take size (ev ∷ evs)) w)
        (λ w1.
          batches-Outcome size fuel (drop size (ev ∷ evs)) w1 h
            (omega (arith, length-drop size (ev ∷ evs))))

  -- With batches of at least one event, a `Publish` that returns nil has committed the statements
  -- of all events, each once and in order; one that returns an error has committed those of a
  -- number of whole batches from the start, and no others. It always ends.
  pub publish_batchwise :
      (size : ℕ) (evs : List ChangeEvent) (w : W)
      → 0 < size
      → Outcome committed size evs w
          (publish (record { pool = some pool; batch_size = size }) evs w)
  unfolding publish publish_on
  publish_batchwise size [] w h = none_committed [] w w refl
  publish_batchwise size (ev ∷ evs) w h =
      batches-Outcome size (length (ev ∷ evs)) (ev ∷ evs) w h (omega arith)
