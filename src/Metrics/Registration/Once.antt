-- ===== src/Metrics/Registration/Once.antt =====
-- When the registration of the metrics succeeds.
use cloud_comp_project.Base.{
  ◌≢◌, ℕ, ◌≡◌, ◌⊎◌, inl, inr, refl, sym, ap, ◌∙◌, subst, Bool, true, false, ◌&&◌, ◌||◌, not, ltb,
  Option, none, some, List, [], ◌∷◌, Text, text_eq, text_eq_self, text_eq_iff, Bool-cases, codes,
}
use cloud_comp_project.Metrics.Registration.{
  Kind, gauge, counter, histogram, default_histogram, Opts, Registry, all_metrics, register_all,
  new_metrics,
}

-- Buckets that Prometheus takes: they increase.
unfoldable pub increasing : List ℕ → Bool
increasing [] = true
increasing (x ∷ []) = true
increasing (x ∷ y ∷ ys) = ltb x y && increasing (y ∷ ys)

abbrev pub has_buckets : Kind → Bool
has_buckets gauge = true
has_buckets counter = true
has_buckets (histogram buckets) = increasing buckets
has_buckets default_histogram = true

-- A registry in which the metrics have the names for which `taken` holds. A registration panics on
-- a name that is taken, and on buckets that do not increase; else it takes the name.
pub record IsRegistry {W : Type 0} (registry : Registry W) (taken : W → Text → Bool) : Type 0 where
  pub refuses : (o : Opts) (w : W) → taken w o.name ≡ true → registry.register o w ≡ none
  pub accepts :
      (o : Opts) (w : W)
      → taken w o.name ≡ false
      → has_buckets o.kind ≡ true
      → (w' : W) × (registry.register o w ≡ some w')
        × ((k : Text) → taken w' k ≡ (text_eq o.name k || taken w k))

abbrev pub names : List Opts → List Text
names [] = []
names (o ∷ os) = o.name ∷ names os

unfoldable pub is_in : Text → List Text → Bool
is_in k [] = false
is_in k (n ∷ ns) = text_eq n k || is_in k ns

-- Different names, and buckets that increase.
unfoldable accepted : List Opts → Bool
unfolding is_in
accepted [] = true
accepted (o ∷ os) = has_buckets o.kind && (not (is_in o.name (names os)) && accepted os)

all_accepted : accepted all_metrics ≡ true
unfolding accepted all_metrics increasing is_in codes text_eq
all_accepted = refl

or_true : (b : Bool) → (b || true) ≡ true
or_true true = refl
or_true false = refl

or_cases : (a b : Bool) → (a || b) ≡ true → (a ≡ true) ⊎ (b ≡ true)
or_cases true b h = inl refl
or_cases false b h = inr h

or_false : (a b : Bool) → (a || b) ≡ false → b ≡ false
or_false true b h = cc
or_false false b h = h

and_parts : (a b c : Bool) → (a && (not b && c)) ≡ true → (a ≡ true) × (b ≡ false) × (c ≡ true)
and_parts true true c h = cc
and_parts true false c h = (refl, refl, h)
and_parts false b c h = cc

or_swap : (a b c : Bool) → (a || (b || c)) ≡ ((b || a) || c)
or_swap true true c = refl
or_swap true false c = refl
or_swap false true c = refl
or_swap false false c = refl

module _ {W : Type 0} (registry : Registry W) (taken : W → Text → Bool)
    (registers : IsRegistry registry taken) where
  -- It panics on a name that is taken.
  abbrev pub Panics : List Opts → W → Option W → Type 0
  Panics os w r = (r ≡ none) × (k : Text) × (is_in k (names os) ≡ true) × (taken w k ≡ true)

  -- No name was taken, and now they are, with those that were.
  abbrev pub Registers : List Opts → W → W → Option W → Type 0
  Registers os w w' r =
      (r ≡ some w')
      × ((k : Text) → is_in k (names os) ≡ true → taken w k ≡ false)
      × ((k : Text) → taken w' k ≡ (is_in k (names os) || taken w k))

  refused_first :
      (o : Opts) (os : List Opts) (w : W)
      → registry.register o w ≡ none
      → register_all registry (o ∷ os) w ≡ none
  unfolding register_all
  refused_first o os w e =
      ap (λ r. elim r [ none ↦ none | some w' ↦ register_all registry os w' ]) e

  registered_first :
      (o : Opts) (os : List Opts) (w w1 : W)
      → registry.register o w ≡ some w1
      → register_all registry (o ∷ os) w ≡ register_all registry os w1
  unfolding register_all
  registered_first o os w w1 e =
      ap (λ r. elim r [ none ↦ none | some w' ↦ register_all registry os w' ]) e

  first_taken :
      (o : Opts) (os : List Opts) (w : W)
      → taken w o.name ≡ true
      → Panics (o ∷ os) w (register_all registry (o ∷ os) w)
  unfolding is_in
  first_taken o os w h =
      (refused_first o os w (registers.refuses o w h), o.name, rw (text_eq_self o.name) refl, h)

  later_taken :
      (o : Opts) (os : List Opts) (w w1 : W)
      → registry.register o w ≡ some w1
      → ((k : Text) → taken w1 k ≡ (text_eq o.name k || taken w k))
      → is_in o.name (names os) ≡ false
      → Panics os w1 (register_all registry os w1)
      → Panics (o ∷ os) w (register_all registry (o ∷ os) w)
  unfolding is_in
  later_taken o os w w1 done added other (panics, k, among, before) =
      let still : taken w k ≡ true =
        elim (or_cases (text_eq o.name k) (taken w k) (sym (added k) ∙ before)) [
          | inl same ↦
              let e = (text_eq_iff o.name k).0 same in
              let both : true ≡ false = sym among ∙ ap (λ j. is_in j (names os)) (sym e) ∙ other in
              cc
          | inr was ↦ was
        ] in
      (registered_first o os w w1 done ∙ panics, k, rw among (or_true (text_eq o.name k)), still)

  both_registered :
      (o : Opts) (os : List Opts) (w w1 w' : W)
      → registry.register o w ≡ some w1
      → taken w o.name ≡ false
      → ((k : Text) → taken w1 k ≡ (text_eq o.name k || taken w k))
      → Registers os w1 w' (register_all registry os w1)
      → Registers (o ∷ os) w w' (register_all registry (o ∷ os) w)
  unfolding is_in
  both_registered o os w w1 w' done free added (all, free', added') = (
    registered_first o os w w1 done ∙ all,
    λ k among. elim (or_cases (text_eq o.name k) (is_in k (names os)) among) [
      | inl same ↦ subst (λ j. taken w j ≡ false) ((text_eq_iff o.name k).0 same) free
      | inr later ↦ or_false (text_eq o.name k) (taken w k) (sym (added k) ∙ free' k later)
    ],
    λ k.
        added' k
        ∙ ap (λ b. is_in k (names os) || b) (added k)
        ∙ or_swap (is_in k (names os)) (text_eq o.name k) (taken w k),
  )

  register_all_lem :
      (os : List Opts) (w : W)
      → accepted os ≡ true
      → Panics os w (register_all registry os w)
        ⊎ ((w' : W) × Registers os w w' (register_all registry os w))
  unfolding accepted register_all is_in
  register_all_lem [] w h = inr (w, (refl, λ k among. cc, λ k. refl))
  register_all_lem (o ∷ os) w h = elim (Bool-cases (taken w o.name)) [
    | inl was ↦ inl (first_taken o os w was)
    | inr free ↦
        let (buckets, other, rest) = and_parts (has_buckets o.kind) _ _ h in
        let (w1, done, added) = registers.accepts o w free buckets in
        elim (register_all_lem os w1 rest) [
          | inl panics ↦ inl (later_taken o os w w1 done added other panics)
          | inr (w', all) ↦ inr (w', both_registered o os w w1 w' done free added all)
        ]
  ]

  second_panics :
      (os : List Opts) (w w' : W) (r : Option W)
      → os ≢ []
      → Registers os w w' r
      → register_all registry os w' ≡ none
  unfolding is_in
  second_panics [] w w' r ne all = absurd (ne refl)
  second_panics (o ∷ os) w w' r ne (all, free, added) =
      let itself =
        ap (λ b. (b || is_in o.name (names os)) || taken w o.name) (text_eq_self o.name) in
      refused_first o os w' (registers.refuses o w' (added o.name ∙ itself))

  -- `New` registers all its metrics if none of their names is taken in the registry, and panics if
  -- one is. So after a `New` that returned a second one in the same process panics.
  pub new_metrics_once :
      (w : W)
      → Panics all_metrics w (new_metrics registry w)
        ⊎ ((w' : W) × Registers all_metrics w w' (new_metrics registry w)
            × (new_metrics registry w' ≡ none))
  unfolding new_metrics all_metrics
  new_metrics_once w = elim (register_all_lem all_metrics w all_accepted) [
    | inl panics ↦ inl panics
    | inr (w', all) ↦ inr (w', all, second_panics all_metrics w w' _ (λ e. cc) all)
  ]
