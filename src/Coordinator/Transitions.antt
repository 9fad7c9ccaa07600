-- ===== src/Coordinator/Transitions.antt =====
-- What the transitions do to a PostgreSQL database. Its default is what new sessions start with; a
-- session that is open keeps the default that it started with.
use cloud_comp_project.Base.{
  ◌≡◌, ◌≢◌, ◌⊎◌, inl, inr, refl, sym, ap, ◌∙◌, Option, none, some, List, [], ◌∷◌, Text, text_eq,
  codes, trim_space, is_space,
}
use cloud_comp_project.Interfaces.{DbConfig, DatabaseState, read_only, read_write, Result, ok, err}
use cloud_comp_project.Coordinator.{
  Sessions, CoordinatorError, to_lower, parse_state, alter_sql, on_text, off_text, terminate_sql,
  reset_sql, show_sql, shown, after_reset, state_with_conn, verified_read_only, verified_read_write,
  verify, after_terminate, after_alter_on, make_read_only, set_read_only, after_alter_off,
  make_read_write, set_read_write,
}

-- How a setting is spelled.
abbrev pub setting_text : DatabaseState → Text
setting_text read_only = on_text
setting_text read_write = off_text

-- `mode db` is the default of a database for new sessions, and `session c` the default of an open
-- session. ALTER DATABASE changes the first, for "subsequent sessions"; RESET goes back to the second.
pub record IsPostgres {W C E : Type 0} (pg : Sessions W C E) (mode : DbConfig → W → DatabaseState)
    (session : C → W → DatabaseState) : Type 0 where
  pub opened :
      (db : DbConfig) (w : W) (c : C)
      → (pg.open_session db w).0 ≡ ok c
      → session c (pg.open_session db w).1 ≡ mode db w
  pub open_keeps : (db : DbConfig) (w : W) → mode db (pg.open_session db w).1 ≡ mode db w
  pub altered :
      (db : DbConfig) (w w' : W) (c : C) (s : DatabaseState)
      → (pg.open_session db w').0 ≡ ok c
      → (pg.exec c (alter_sql db.database (setting_text s)) [] w).0 ≡ none
      → mode db (pg.exec c (alter_sql db.database (setting_text s)) [] w).1 ≡ s
  pub not_altered :
      (db : DbConfig) (w : W) (c : C) (s : DatabaseState) (e : E)
      → (pg.exec c (alter_sql db.database (setting_text s)) [] w).0 ≡ some e
      → mode db (pg.exec c (alter_sql db.database (setting_text s)) [] w).1 ≡ mode db w
  pub terminate_keeps :
      (db : DbConfig) (c : C) (args : List Text) (w : W)
      → mode db (pg.exec c terminate_sql args w).1 ≡ mode db w
  pub reset_keeps :
      (db : DbConfig) (c : C) (w : W) → mode db (pg.exec c reset_sql [] w).1 ≡ mode db w
  pub alter_session :
      (db : DbConfig) (c : C) (s : DatabaseState) (w : W)
      → session c (pg.exec c (alter_sql db.database (setting_text s)) [] w).1 ≡ session c w
  pub terminate_session :
      (c : C) (args : List Text) (w : W)
      → session c (pg.exec c terminate_sql args w).1 ≡ session c w
  pub reset_session : (c : C) (w : W) → session c (pg.exec c reset_sql [] w).1 ≡ session c w
  pub show_reads :
      (c : C) (w : W) (v : Text) → (pg.show c show_sql w).0 ≡ ok v → v ≡ setting_text (session c w)
  pub show_keeps : (db : DbConfig) (c : C) (w : W) → mode db (pg.show c show_sql w).1 ≡ mode db w
  pub close_keeps : (db : DbConfig) (c : C) (w : W) → mode db (pg.close c w) ≡ mode db w

parse_setting : {E : Type 0} (s : DatabaseState) → parse_state {E = E} (setting_text s) ≡ ok s
unfolding parse_state to_lower trim_space is_space text_eq codes on_text off_text
parse_setting read_only = refl
parse_setting read_write = refl

ok-injective : {E A : Type 0} (a b : A) → ◌≡◌ {A = Result E A} (ok a) (ok b) → a ≡ b
ok-injective a b h = cc

only_verified :
    {E : Type 0} (r : Result (CoordinatorError E) DatabaseState)
    → verified_read_only r ≡ none
    → r ≡ ok read_only
unfolding verified_read_only
only_verified (ok read_only) h = refl
only_verified (ok read_write) h = cc
only_verified (err e) h = cc

write_verified :
    {E : Type 0} (r : Result (CoordinatorError E) DatabaseState)
    → verified_read_write r ≡ none
    → r ≡ ok read_write
unfolding verified_read_write
write_verified (ok read_write) h = refl
write_verified (ok read_only) h = cc
write_verified (err e) h = cc

module _ {W C E : Type 0} (pg : Sessions W C E) (mode : DbConfig → W → DatabaseState)
    (session : C → W → DatabaseState) (postgres : IsPostgres pg mode session) where
  -- What a connection reads is the default that its session started with.
  shown_session :
      (c : C) (w : W) (s : DatabaseState) (r : Result E Text)
      → (pg.show c show_sql w).0 ≡ r
      → shown pg r ≡ ok s
      → session c w ≡ s
  unfolding shown
  shown_session c w s (err e) p h = cc
  shown_session c w s (ok v) p h =
      ok-injective {E = CoordinatorError E} (session c w) s
        (sym (parse_setting (session c w)) ∙ ap parse_state (sym (postgres.show_reads c w v p)) ∙ h)

  reset_lem :
      (c : C) (w : W) (s : DatabaseState) (e : Option E)
      → (after_reset pg c e w).0 ≡ ok s
      → session c w ≡ s
  unfolding after_reset
  reset_lem c w s none h = shown_session c w s _ refl h
  reset_lem c w s (some e) h = cc

  pub state_session :
      (c : C) (w : W) (s : DatabaseState) → (state_with_conn pg c w).0 ≡ ok s → session c w ≡ s
  unfolding state_with_conn
  state_session c w s h =
      sym (postgres.reset_session c w) ∙ reset_lem c (pg.exec c reset_sql [] w).1 s _ h

  terminated :
      (c : C) (e : Option E) (w : W) → (after_terminate pg c e w).0 ≡ none → session c w ≡ read_only
  unfolding after_terminate verify
  terminated c none w h = state_session c w read_only (only_verified _ h)
  terminated c (some e) w h = cc

  altered_on :
      (c : C) (name : Text) (e : Option E) (w : W)
      → (after_alter_on pg c name e w).0 ≡ none
      → session c w ≡ read_only
  unfolding after_alter_on
  altered_on c name none w h =
      sym (postgres.terminate_session c (name ∷ []) w)
      ∙ terminated c _ (pg.exec c terminate_sql (name ∷ []) w).1 h
  altered_on c name (some e) w h = cc

  altered_off :
      (c : C) (e : Option E) (w : W)
      → (after_alter_off pg c e w).0 ≡ none
      → session c w ≡ read_write
  unfolding after_alter_off verify
  altered_off c none w h = state_session c w read_write (write_verified _ h)
  altered_off c (some e) w h = cc

  made_read_only :
      (db : DbConfig) (w : W) (r : Result E C)
      → (pg.open_session db w).0 ≡ r
      → (make_read_only pg db r (pg.open_session db w).1).0 ≡ none
      → mode db w ≡ read_only
  unfolding make_read_only
  made_read_only db w (err e) p h = cc
  made_read_only db w (ok c) p h =
      sym (postgres.opened db w c p)
      ∙ sym (postgres.alter_session db c read_only (pg.open_session db w).1)
      ∙ altered_on c db.database _ _ h

  made_read_write :
      (db : DbConfig) (w : W) (r : Result E C)
      → (pg.open_session db w).0 ≡ r
      → (make_read_write pg db r (pg.open_session db w).1).0 ≡ none
      → mode db w ≡ read_write
  unfolding make_read_write
  made_read_write db w (err e) p h = cc
  made_read_write db w (ok c) p h =
      sym (postgres.opened db w c p)
      ∙ sym (postgres.alter_session db c read_write (pg.open_session db w).1)
      ∙ altered_off c _ _ h

  unless_done : {P : Type 0} (e : Option (CoordinatorError E)) → (e ≡ none → P) → (e ≢ none) ⊎ P
  unless_done none h = inr (h refl)
  unless_done (some e) h = inl (λ p. cc)

  -- On a PostgreSQL server, where a changed default holds for new sessions only, SetReadOnly and
  -- SetReadWrite return an error, or the database was in that state already: a transition that they
  -- make is never verified, since they read the default of their own, older session.
  pub transitions_unverified :
      (db : DbConfig) (w : W)
      → (((set_read_only pg db w).0 ≢ none) ⊎ (mode db w ≡ read_only))
        × (((set_read_write pg db w).0 ≢ none) ⊎ (mode db w ≡ read_write))
  unfolding set_read_only set_read_write
  transitions_unverified db w =
      (unless_done _ (made_read_only db w _ refl), unless_done _ (made_read_write db w _ refl))
