-- ===== src/Failover/Enabling.antt =====
-- When a check makes the local database writable.
use cloud_comp_project.Base.{
  ◌≡◌, ◌⊎◌, inl, inr, refl, ◌∙◌, ap, Bool, true, false, not, ◌&&◌, [], ◌∷◌, Text, text_eq,
  text_eq_iff, is_empty, if◌then◌else◌, Bool-cases,
}
use cloud_comp_project.Interfaces.{DbConfig, DatabaseState, read_only, read_write, Result, ok, err}
use cloud_comp_project.Metrics.{active_node, failover_events, split_brain_events}
use cloud_comp_project.Failover.{
  Manager, Surroundings, is_cloud, is_local, fail_over, handle_cloud_active, handle_local_active,
  resolve_split_brain, detect_split_brain, handle, check_holder, after_holder, check,
}
use cloud_comp_project.Failover.Safety.{HasModes, local_db, tell_keeps, read_only_safe}

is_empty-eq : (s : Text) → is_empty s ≡ true → s ≡ []
is_empty-eq [] h = refl
is_empty-eq (c ∷ s) h = absurd (cc)

and_false : (b : Bool) → (b && false) ≡ false
and_false true = refl
and_false false = refl

module _ {W E : Type 0} (env : Surroundings W E) (mode : DbConfig → W → DatabaseState)
    (modes : HasModes env mode) where
  keeps_resolve :
      (foreign : Bool) (r : Result E DatabaseState) (m : Manager) (w : W)
      → mode (local_db m) w ≡ read_only
      → mode (local_db m) (resolve_split_brain env foreign r m w) ≡ read_only
  unfolding resolve_split_brain
  keeps_resolve foreign (err x) m w h = h
  keeps_resolve foreign (ok read_only) m w h = h
  keeps_resolve false (ok read_write) m w h = h
  keeps_resolve true (ok read_write) m w h =
      read_only_safe env mode modes (local_db m) _
        (tell_keeps env mode modes split_brain_events (local_db m) w ∙ h)

  keeps_detect :
      (holder : Text) (m : Manager) (w : W)
      → mode (local_db m) w ≡ read_only
      → mode (local_db m) (detect_split_brain env holder m w) ≡ read_only
  unfolding detect_split_brain
  keeps_detect [] m w h = h
  keeps_detect (c ∷ cs) m w h =
      keeps_resolve (not (text_eq (c ∷ cs) m.node_id)) _ m _ (modes.state_keeps (local_db m) w ∙ h)

  keeps_fail_over :
      (m : Manager) (w : W)
      → mode (local_db m) w ≡ read_only
      → mode (local_db m) (fail_over env m w).1 ≡ read_only
  unfolding fail_over
  keeps_fail_over m w h = read_only_safe env mode modes (local_db m) _ (
      tell_keeps env mode modes failover_events (local_db m) _
      ∙ tell_keeps env mode modes (active_node 1) (local_db m) w
      ∙ h)

  keeps_foreign :
      (holder : Text) (m : Manager) (w : W)
      → is_empty holder ≡ false
      → text_eq holder m.node_id ≡ false
      → mode (local_db m) w ≡ read_only
      → mode (local_db m) (check_holder env holder m w).1 ≡ read_only
  unfolding check_holder handle handle_cloud_active
  keeps_foreign holder m w some_holder foreign h =
      rw (some_holder, foreign) (by_node (is_cloud m.active_node))
    where
      by_node :
          (b : Bool)
          → let (m', w') = if b then (m, w) else fail_over env m w in
            mode (local_db m) (detect_split_brain env holder m' w') ≡ read_only
      by_node true = keeps_detect holder m w h
      by_node false =
          unfold fail_over in
          keeps_detect holder (fail_over env m w).0 (fail_over env m w).1 (keeps_fail_over m w h)

  keeps_local :
      (ours : Bool) (m : Manager) (w : W)
      → is_local m.active_node ≡ true
      → mode (local_db m) w ≡ read_only
      → let (m', w') = handle env false ours m w in (m' ≡ m) × (w' ≡ w)
  unfolding handle handle_local_active
  keeps_local true m w local h = rw local (refl, refl)
  keeps_local false m w local h = (refl, refl)

  keeps_ours :
      (holder : Text) (ours : Bool) (m : Manager) (w : W)
      → is_local m.active_node ≡ true
      → mode (local_db m) w ≡ read_only
      → mode (local_db m) (
          detect_split_brain env holder (handle env false ours m w).0 (handle env false ours m w).1)
        ≡ read_only
  keeps_ours holder ours m w local h =
      let (p, q) = keeps_local ours m w local h in rw (p, q) (keeps_detect holder m w h)

  -- What must be so if a check has made the local database writable.
  abbrev pub MayEnable : Result E Text → Manager → Type 0
  MayEnable r m = (is_local m.active_node ≡ false) × ((r ≡ ok m.node_id) ⊎ (r ≡ ok []))

  enables_ours :
      (holder : Text) (m : Manager) (w : W) (ours : Bool)
      → (holder ≡ m.node_id) ⊎ (holder ≡ [])
      → mode (local_db m) w ≡ read_only
      → mode (local_db m) (
          detect_split_brain env holder (handle env false ours m w).0 (handle env false ours m w).1)
        ≡ read_write
      → MayEnable (ok holder) m
  enables_ours holder m w ours mine h enabled = elim (Bool-cases (is_local m.active_node)) [
    | inl local ↦ absurd (cc (keeps_ours holder ours m w local h))
    | inr away ↦ (away, elim mine [ inl p ↦ inl (ap ok p) | inr p ↦ inr (ap ok p) ])
  ]

  enables :
      (holder : Text) (m : Manager) (w : W)
      → mode (local_db m) w ≡ read_only
      → mode (local_db m) (check_holder env holder m w).1 ≡ read_write
      → MayEnable (ok holder) m
  enables holder m w h enabled = elim (Bool-cases (text_eq holder m.node_id)) [
    | inl same ↦
        enables_ours holder m w true (inl ((text_eq_iff _ _).0 same)) h
          (unfold check_holder in rw (same, and_false) at enabled)
    | inr other ↦ elim (Bool-cases (is_empty holder)) [
      | inl empty ↦
          enables_ours holder m w true (inr (is_empty-eq holder empty)) h
            (unfold check_holder in rw (other, empty) at enabled)
      | inr some_holder ↦ absurd (cc (keeps_foreign holder m w some_holder other h))
    ]
  ]

  -- A check makes a read-only local database writable only if it has found that this node holds the
  -- lock, or that the lock object names no holder, and the manager took another node to be active.
  pub writable_needs_lock :
      (m : Manager) (w : W)
      → mode (local_db m) w ≡ read_only
      → mode (local_db m) (check env m w).1 ≡ read_write
      → MayEnable (env.lock.get_holder m.cfg.distributed_lock.lock_key w).0 m
  unfolding check
  writable_needs_lock m w h enabled =
      by_holder (env.lock.get_holder m.cfg.distributed_lock.lock_key w).0 enabled
    where
      w1 : W
      w1 = (env.lock.get_holder m.cfg.distributed_lock.lock_key w).1

      kept : mode (local_db m) w1 ≡ read_only
      kept = modes.holder_keeps m.cfg.distributed_lock.lock_key (local_db m) w ∙ h

      by_holder :
          (r : Result E Text)
          → mode (local_db m) (after_holder env r m w1).1 ≡ read_write
          → MayEnable r m
      by_holder (err x) e = absurd (unfold after_holder in cc kept)
      by_holder (ok holder) e = enables holder m w1 kept (unfold after_holder in e)
