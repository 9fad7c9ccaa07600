-- ===== src/Replication/Publisher/Rounds.antt =====
-- What a round of the loop of `Publish` does to the cloud database: it commits the statements of
-- the whole batch, or nothing.
use mathlib.Core.List.{append-nil, append_assoc}
use cloud_comp_project.Base.{
  ◌≡◌, ◌≢◌, ◌⊎◌, inl, inr, refl, sym, ap, ◌∙◌, Option, none, some, List, [], ◌∷◌, ◌++◌, Text,
}
use cloud_comp_project.Interfaces.{Value, ChangeEvent, Result, ok, err}
use cloud_comp_project.Replication.Sql.{SqlError, Statement, build_dml}
use cloud_comp_project.Replication.Publisher.{
  Pool, PublisherError, batches_cut_off, roll_back, after_exec, apply_statement, apply_events,
  after_commit, after_events, after_begin, publish_batch,
}

-- Transactions: `committed` is the list of the statements of all transactions that were committed,
-- and `pending` that of the statements of the open one. Of a commit that returns an error it is not
-- known whether the transaction was committed.
pub record IsTransactional {W T E : Type 0} (pool : Pool W T E)
    (committed pending : W → List Statement) : Type 0 where
  pub begin_keeps : (w : W) → committed (pool.begin_tx w).1 ≡ committed w
  pub begin_empty :
      (w : W) (tx : T) → (pool.begin_tx w).0 ≡ ok tx → pending (pool.begin_tx w).1 ≡ []
  pub exec_keeps :
      (tx : T) (q : Text) (args : List Value) (w : W)
      → committed (pool.exec tx q args w).1 ≡ committed w
  pub exec_adds :
      (tx : T) (q : Text) (args : List Value) (w : W)
      → (pool.exec tx q args w).0 ≡ none
      → pending (pool.exec tx q args w).1 ≡ pending w ++ (q, args) ∷ []
  pub rollback_keeps : (tx : T) (w : W) → committed (pool.rollback tx w).1 ≡ committed w
  pub commit_done :
      (tx : T) (w : W)
      → (pool.commit tx w).0 ≡ none
      → committed (pool.commit tx w).1 ≡ committed w ++ pending w
  pub commit_failed :
      (tx : T) (w : W) (e : E)
      → (pool.commit tx w).0 ≡ some e
      → (committed (pool.commit tx w).1 ≡ committed w)
        ⊎ (committed (pool.commit tx w).1 ≡ committed w ++ pending w)

abbrev pub add_statement :
    Result SqlError Statement → Option (List Statement) → Option (List Statement)
add_statement (err e) later = none
add_statement (ok s) none = none
add_statement (ok s) (some ss) = some (s ∷ ss)

-- The statements of events, if each event has one.
unfoldable pub statements : List ChangeEvent → Option (List Statement)
statements [] = some []
statements (ev ∷ evs) = add_statement (build_dml ev) (statements evs)

add_some :
    (r : Result SqlError Statement) (later : Option (List Statement)) (s : Statement)
    (ss : List Statement)
    → r ≡ ok s
    → later ≡ some ss
    → add_statement r later ≡ some (s ∷ ss)
add_some r later s ss p q = rw (p, q) refl

add_inv :
    (r : Result SqlError Statement) (later : Option (List Statement)) (ss : List Statement)
    → add_statement r later ≡ some ss
    → (s : Statement) × (ts : List Statement) × (r ≡ ok s) × (later ≡ some ts) × (s ∷ ts ≡ ss)
add_inv (err e) later ss h = cc
add_inv (ok s) none ss h = cc
add_inv (ok s) (some ts) ss h = (s, ts, refl, refl, cc)

pub statements-append :
    (xs ys : List ChangeEvent) (ss ts : List Statement)
    → statements xs ≡ some ss
    → statements ys ≡ some ts
    → statements (xs ++ ys) ≡ some (ss ++ ts)
unfolding statements
statements-append [] ys ss ts p q = let e : [] ≡ ss = cc in rw (← e, q) refl
statements-append (x ∷ xs) ys ss ts p q =
    let (s, ss', r, p', e) = add_inv (build_dml x) (statements xs) ss p in
    add_some _ _ s (ss' ++ ts) r (statements-append xs ys ss' ts p' q) ∙ ap (λ l. some (l ++ ts)) e

-- Between two worlds the statements of the events were committed, and no others.
abbrev pub Committed : {W : Type 0} → (W → List Statement) → List ChangeEvent → W → W → Type 0
Committed committed evs w w' =
    (ss : List Statement) × (statements evs ≡ some ss) × (committed w' ≡ committed w ++ ss)

-- What a round has done: its batch, or nothing; of a failed commit it is not known.
abbrev pub Round :
    {W E : Type 0}
    → (W → List Statement)
    → List ChangeEvent
    → W
    → Option (PublisherError E) × W
    → Type 0
Round committed batch w (none, w') = Committed committed batch w w'
Round committed batch w (some e, w') =
    (e ≢ batches_cut_off) × ((committed w' ≡ committed w) ⊎ Committed committed batch w w')

module _ {W T E : Type 0} (pool : Pool W T E) (committed pending : W → List Statement)
    (transactional : IsTransactional pool committed pending) where
  -- What a transaction has done when its loop over the events ends.
  abbrev Applied : List ChangeEvent → W → Option (PublisherError E) × W → Type 0
  Applied evs w (none, w') =
      (ss : List Statement) × (statements evs ≡ some ss)
      × (pending w' ≡ pending w ++ ss)
      × (committed w' ≡ committed w)
  Applied evs w (some e, w') = (e ≢ batches_cut_off) × (committed w' ≡ committed w)

  rolled_back :
      (tx : T) (e : PublisherError E) (w0 w : W)
      → e ≢ batches_cut_off
      → committed w ≡ committed w0
      → (evs : List ChangeEvent) → Applied evs w0 (roll_back pool tx e w)
  unfolding roll_back
  rolled_back tx e w0 w ne h evs = (ne, transactional.rollback_keeps tx w ∙ h)

  exec-Applied :
      (tx : T) (ev : ChangeEvent) (q : Text) (args : List Value) (w : W) (x : Option E)
      → build_dml ev ≡ ok (q, args)
      → (pool.exec tx q args w).0 ≡ x
      → Applied (ev ∷ []) w (after_exec pool tx ev x (pool.exec tx q args w).1)
  unfolding after_exec statements
  exec-Applied tx ev q args w none built done = (
    (q, args) ∷ [],
    rw built refl,
    transactional.exec_adds tx q args w done,
    transactional.exec_keeps tx q args w,
  )
  exec-Applied tx ev q args w (some e) built failed =
      rolled_back tx _ w _ (λ p. cc) (transactional.exec_keeps tx q args w) (ev ∷ [])

  statement-Applied :
      (tx : T) (ev : ChangeEvent) (r : Result SqlError Statement) (w : W)
      → build_dml ev ≡ r
      → Applied (ev ∷ []) w (apply_statement pool tx ev r w)
  unfolding apply_statement
  statement-Applied tx ev (err e) w p = rolled_back tx _ w w (λ q. cc) refl (ev ∷ [])
  statement-Applied tx ev (ok (q, args)) w p = exec-Applied tx ev q args w _ p refl

  then-Applied :
      (ev : ChangeEvent) (evs : List ChangeEvent) (w w1 : W)
      → Applied (ev ∷ []) w (none, w1)
      → (r : Option (PublisherError E) × W) → Applied evs w1 r
      → Applied (ev ∷ evs) w r
  then-Applied ev evs w w1 (ss, built, pend, kept) (none, w') (ts, built', pend', kept') = (
    ss ++ ts,
    statements-append (ev ∷ []) evs ss ts built built',
    pend' ∙ ap (λ l. l ++ ts) pend ∙ append_assoc (pending w) ss ts,
    kept' ∙ kept,
  )
  then-Applied ev evs w w1 (ss, built, pend, kept) (some e, w') (ne, kept') = (ne, kept' ∙ kept)

  first-Applied :
      (tx : T) (ev : ChangeEvent) (evs : List ChangeEvent) (w : W)
      (r : Option (PublisherError E) × W)
      → Applied (ev ∷ []) w r
      → ((w1 : W) → Applied evs w1 (apply_events pool tx evs w1))
      → Applied
          (ev ∷ evs)
          w
          (elim r.0 [ none ↦ apply_events pool tx evs r.1 | some e ↦ (some e, r.1) ])
  first-Applied tx ev evs w (none, w1) h rest =
      then-Applied ev evs w w1 h (apply_events pool tx evs w1) (rest w1)
  first-Applied tx ev evs w (some e, w1) h rest = h

  events-Applied :
      (tx : T) (evs : List ChangeEvent) (w : W) → Applied evs w (apply_events pool tx evs w)
  unfolding apply_events statements
  events-Applied tx [] w = ([], refl, sym (append-nil (pending w)), refl)
  events-Applied tx (ev ∷ evs) w =
      first-Applied tx ev evs w (apply_statement pool tx ev (build_dml ev) w)
        (statement-Applied tx ev (build_dml ev) w refl) (events-Applied tx evs)

  all_added :
      (w0 w : W) (ss : List Statement)
      → pending w0 ≡ []
      → pending w ≡ pending w0 ++ ss
      → committed w ≡ committed w0
      → committed w ++ pending w ≡ committed w0 ++ ss
  all_added w0 w ss empty pend kept = rw (kept, pend, empty) refl

  commit-Round :
      (tx : T) (batch : List ChangeEvent) (w0 w : W) (x : Option E)
      → pending w0 ≡ []
      → Applied batch w0 (none, w)
      → (pool.commit tx w).0 ≡ x
      → Round committed batch w0 (after_commit pool tx x (pool.commit tx w).1)
  unfolding after_commit roll_back
  commit-Round tx batch w0 w none empty (ss, built, pend, kept) done =
      (ss, built, transactional.commit_done tx w done ∙ all_added w0 w ss empty pend kept)
  commit-Round tx batch w0 w (some e) empty (ss, built, pend, kept) failed =
      let back = transactional.rollback_keeps tx (pool.commit tx w).1 in
      (
        λ p. cc,
        elim (transactional.commit_failed tx w e failed) [
          | inl same ↦ inl (back ∙ same ∙ kept)
          | inr added ↦ inr (ss, built, back ∙ added ∙ all_added w0 w ss empty pend kept)
        ],
      )

  events-Round :
      (tx : T) (batch : List ChangeEvent) (w0 : W) (r : Option (PublisherError E) × W)
      → pending w0 ≡ []
      → Applied batch w0 r
      → Round committed batch w0 (after_events pool tx r.0 r.1)
  unfolding after_events
  events-Round tx batch w0 (none, w) empty h = commit-Round tx batch w0 w _ empty h refl
  events-Round tx batch w0 (some e, w) empty (ne, kept) = (ne, inl kept)

  moved :
      (batch : List ChangeEvent) (w0 w1 : W) (r : Option (PublisherError E) × W)
      → committed w1 ≡ committed w0
      → Round committed batch w1 r
      → Round committed batch w0 r
  moved batch w0 w1 (none, w) h (ss, built, added) = (ss, built, rw (← h) added)
  moved batch w0 w1 (some e, w) h (ne, outcome) = (
    ne,
    elim outcome [
      | inl same ↦ inl (same ∙ h)
      | inr (ss, built, added) ↦ inr (ss, built, rw (← h) added)
    ],
  )

  begin-Round :
      (batch : List ChangeEvent) (w : W) (x : Result E T)
      → (pool.begin_tx w).0 ≡ x
      → Round committed batch w (after_begin pool batch x (pool.begin_tx w).1)
  unfolding after_begin
  begin-Round batch w (err e) p = (λ q. cc, inl (transactional.begin_keeps w))
  begin-Round batch w (ok tx) p =
      let w1 = (pool.begin_tx w).1 in
      let r = apply_events pool tx batch w1 in
      moved batch w w1 (after_events pool tx r.0 r.1) (transactional.begin_keeps w)
        (events-Round tx batch w1 r (transactional.begin_empty w tx p) (events-Applied tx batch w1))

  pub batch-Round :
      (batch : List ChangeEvent) (w : W) → Round committed batch w (publish_batch pool batch w)
  unfolding publish_batch
  batch-Round batch w = begin-Round batch w _ refl
