-- ===== src/Examples/MetricsRuns.antt =====
-- The registration of the metrics in a registry that is the list of the names taken.
use cloud_comp_project.Base.{
  ◌≡◌, ◌⊎◌, refl, none, some, List, [], ◌∷◌, Text, codes, text_eq, Bool, if◌then◌else◌,
}
use cloud_comp_project.Metrics.Registration.{Registry, all_metrics, new_metrics}
use cloud_comp_project.Metrics.Registration.Once.{
  IsRegistry, Panics, Registers, has_buckets, increasing, is_in, new_metrics_once,
}

abbrev registry : Registry (List Text)
registry = record {
  register = λ o w.
      if is_in o.name w then none else if has_buckets o.kind then some (o.name ∷ w) else none;
}

abbrev taken : List Text → Text → Bool
taken w k = is_in k w

registry-IsRegistry : IsRegistry registry taken
unfolding is_in
registry-IsRegistry = record {
  refuses = λ o w h. rw h refl;
  accepts = λ o w h b. (o.name ∷ w, rw (h, b) refl, λ k. refl);
}

registers : (w : List Text) × (new_metrics registry [] ≡ some w)
unfolding new_metrics all_metrics is_in codes text_eq increasing
registers = (_, refl)

new_metrics_once_example :
    Panics registry taken registry-IsRegistry all_metrics [] (new_metrics registry [])
    ⊎ ((w : List Text) × Registers registry taken registry-IsRegistry all_metrics [] w
          (new_metrics registry [])
        × (new_metrics registry w ≡ none))
new_metrics_once_example = new_metrics_once registry taken registry-IsRegistry []
