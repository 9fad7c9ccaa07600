-- ===== src/Coordinator/Effects.antt =====
-- What the calls of the coordinator change in a PostgreSQL database.
use cloud_comp_project.Base.{◌≡◌, ◌≢◌, ◌⊎◌, inl, inr, refl, ◌∙◌, Option, none, some, [], ◌∷◌}
use cloud_comp_project.Interfaces.{DbConfig, DatabaseState, read_only, Result, ok, err}
use cloud_comp_project.Coordinator.{
  Sessions, CoordinatorError, alter_sql, on_text, after_reset, state_with_conn, verified_read_only,
  verify, after_terminate, after_alter_on, make_read_only, set_read_only,
}
use cloud_comp_project.Coordinator.Transitions.{IsPostgres}

module _ {W C E : Type 0} (pg : Sessions W C E) (mode : DbConfig → W → DatabaseState)
    (session : C → W → DatabaseState) (postgres : IsPostgres pg mode session) where
  pub reset_same :
      (db : DbConfig) (c : C) (e : Option E) (w : W) → mode db (after_reset pg c e w).1 ≡ mode db w
  unfolding after_reset
  reset_same db c none w = postgres.show_keeps db c w
  reset_same db c (some e) w = refl

  verify_same :
      (db : DbConfig) (c : C)
      (check : Result (CoordinatorError E) DatabaseState → Option (CoordinatorError E)) (w : W)
      → mode db (verify pg c check w).1 ≡ mode db w
  unfolding verify state_with_conn
  verify_same db c check w =
      postgres.close_keeps db c _ ∙ reset_same db c _ _ ∙ postgres.reset_keeps db c w

  terminate_same :
      (db : DbConfig) (c : C) (e : Option E) (w : W)
      → mode db (after_terminate pg c e w).1 ≡ mode db w
  unfolding after_terminate
  terminate_same db c none w = verify_same db c verified_read_only w
  terminate_same db c (some e) w = postgres.close_keeps db c w

  -- What SetReadOnly leaves behind.
  abbrev pub LeftReadOnly : DbConfig → W → Option (CoordinatorError E) × W → Type 0
  LeftReadOnly db w r = (mode db r.1 ≡ read_only) ⊎ ((r.0 ≢ none) × (mode db r.1 ≡ mode db w))

  after_alter_left :
      (db : DbConfig) (c : C) (w w1 : W) (e : Option E)
      → mode db w1 ≡ mode db w
      → ((pg.exec c (alter_sql db.database on_text) [] w1).0 ≡ e)
      → ((pg.open_session db w).0 ≡ ok c)
      → LeftReadOnly db w
          (after_alter_on pg c db.database e (pg.exec c (alter_sql db.database on_text) [] w1).1)
  unfolding after_alter_on
  after_alter_left db c w w1 none same p h = inl (
      terminate_same db c _ _
      ∙ postgres.terminate_keeps db c (db.database ∷ []) _
      ∙ postgres.altered db w1 w c read_only h p)
  after_alter_left db c w w1 (some e) same p h =
      inr
        ((λ q. cc), postgres.close_keeps db c _ ∙ postgres.not_altered db w1 c read_only e p ∙ same)

  make_left :
      (db : DbConfig) (w : W) (r : Result E C)
      → (pg.open_session db w).0 ≡ r
      → LeftReadOnly db w (make_read_only pg db r (pg.open_session db w).1)
  unfolding make_read_only
  make_left db w (err e) p = inr ((λ q. cc), postgres.open_keeps db w)
  make_left db w (ok c) p =
      after_alter_left db c w (pg.open_session db w).1 _ (postgres.open_keeps db w) refl p

  -- On a PostgreSQL server SetReadOnly leaves the database read-only, with an error or without, or
  -- it returns an error and leaves the database as it was.
  pub set_read_only_leaves : (db : DbConfig) (w : W) → LeftReadOnly db w (set_read_only pg db w)
  unfolding set_read_only
  set_read_only_leaves db w = make_left db w _ refl
