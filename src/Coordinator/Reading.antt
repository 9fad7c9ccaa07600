-- ===== src/Coordinator/Reading.antt =====
-- What GetState reads of a PostgreSQL database.
use cloud_comp_project.Base.{◌≡◌, refl, sym, ◌∙◌}
use cloud_comp_project.Interfaces.{DbConfig, DatabaseState, Result, ok, err}
use cloud_comp_project.Coordinator.{Sessions, state_with_conn, read_state, get_state}
use cloud_comp_project.Coordinator.Transitions.{IsPostgres, state_session}
use cloud_comp_project.Coordinator.Effects.{reset_same}

module _ {W C E : Type 0} (pg : Sessions W C E) (mode : DbConfig → W → DatabaseState)
    (session : C → W → DatabaseState) (postgres : IsPostgres pg mode session) where
  read_from :
      (db : DbConfig) (w : W) (s : DatabaseState) (r : Result E C)
      → (pg.open_session db w).0 ≡ r
      → (read_state pg r (pg.open_session db w).1).0 ≡ ok s
      → mode db w ≡ s
  unfolding read_state
  read_from db w s (err e) p h = cc
  read_from db w s (ok c) p h =
      sym (postgres.opened db w c p) ∙ state_session pg mode session postgres c _ s h

  keeps_from : (db : DbConfig) (w : W) (r : Result E C) → mode db (read_state pg r w).1 ≡ mode db w
  unfolding read_state state_with_conn
  keeps_from db w (err e) = refl
  keeps_from db w (ok c) =
      postgres.close_keeps db c _
      ∙ reset_same pg mode session postgres db c _ _
      ∙ postgres.reset_keeps db c w

  -- On a PostgreSQL server a state that GetState returns is the database's default for new
  -- sessions.
  pub get_state_reads :
      (db : DbConfig) (w : W) (s : DatabaseState) → (get_state pg db w).0 ≡ ok s → mode db w ≡ s
  unfolding get_state
  get_state_reads db w s h = read_from db w s _ refl h

  pub get_state_keeps : (db : DbConfig) (w : W) → mode db (get_state pg db w).1 ≡ mode db w
  unfolding get_state
  get_state_keeps db w = keeps_from db _ _ ∙ postgres.open_keeps db w
