-- ===== src/Coordinator.antt =====
-- state-sync-engine/internal/coordinator/coordinator.go: the read-only transitions of a database.
pub mod Transitions
pub mod Effects
pub mod Reading
use cloud_comp_project.Base.{
  ℕ, ◌+◌, Bool, true, false, ◌&&◌, leb, Option, none, some, List, [], ◌∷◌, ◌++◌, map, Text, text_eq,
  codes, trim_space, if◌then◌else◌,
}
use cloud_comp_project.Interfaces.{
  DbConfig, DatabaseState, read_only, read_write, Result, ok, err, StateCoordinator,
}
use cloud_comp_project.Replication.Identifier.{quote_identifier}

-- What the coordinator calls of a connection of pgx, with connections of a type `C`. `show` is the
-- query for one text.
pub record Sessions (W C E : Type 0) : Type 0 where
  pub open_session : DbConfig → W → Result E C × W
  pub exec : C → Text → List Text → W → Option E × W
  pub show : C → Text → W → Result E Text × W
  pub close : C → W → W

pub data CoordinatorError (E : Type 0) : Type 0 where
  connecting : E → CoordinatorError E
  setting_read_only setting_read_write terminating : E → CoordinatorError E
  verifying : CoordinatorError E → CoordinatorError E
  not_read_only not_read_write : DatabaseState → CoordinatorError E
  resetting querying : E → CoordinatorError E
  unexpected_value : Text → CoordinatorError E

-- `strings.ToLower`, for the letters A to Z. Other letters are left alone: none of them has a small
-- letter that the texts below hold.
pub to_lower : Text → Text
to_lower s = map (λ r. if leb 65 r && leb r 90 then r + 32 else r) s

-- the switch of `getStateWithConn`
unfoldable pub parse_state : {E : Type 0} → Text → Result (CoordinatorError E) DatabaseState
unfolding to_lower trim_space text_eq codes
parse_state value =
    let v = trim_space (to_lower value) in
    if text_eq v (codes "on")
    then ok read_only
    else if text_eq v (codes "off")
    then ok read_write
    else err (unexpected_value value)

unfoldable pub alter_sql : Text → Text → Text
unfolding quote_identifier codes
alter_sql database value =
    codes "ALTER DATABASE "
    ++ quote_identifier database
    ++ codes " SET default_transaction_read_only = "
    ++ value

unfoldable pub on_text : Text
unfolding codes
on_text = codes "on"

unfoldable pub off_text : Text
unfolding codes
off_text = codes "off"

unfoldable pub terminate_sql : Text
unfolding codes
terminate_sql =
    codes
      "\n\t\tSELECT pg_terminate_backend(pid)\n\t\tFROM pg_stat_activity\n\t\tWHERE datname = $1"
    ++ codes "\n\t\t  AND pid != pg_backend_pid()\n\t\t  AND state = 'active'"
    ++ codes "\n\t\t  AND query NOT ILIKE '%pg_stat_activity%'"

unfoldable pub reset_sql : Text
unfolding codes
reset_sql = codes "RESET default_transaction_read_only"

unfoldable pub show_sql : Text
unfolding codes
show_sql = codes "SHOW default_transaction_read_only"

-- the verification at the end of `SetReadOnly` and of `SetReadWrite`
pub verified_read_only :
    {E : Type 0} → Result (CoordinatorError E) DatabaseState → Option (CoordinatorError E)
verified_read_only (err e) = some (verifying e)
verified_read_only (ok read_only) = none
verified_read_only (ok read_write) = some (not_read_only read_write)

pub verified_read_write :
    {E : Type 0} → Result (CoordinatorError E) DatabaseState → Option (CoordinatorError E)
verified_read_write (err e) = some (verifying e)
verified_read_write (ok read_only) = some (not_read_write read_only)
verified_read_write (ok read_write) = none

module _ {W C E : Type 0} (pg : Sessions W C E) where
  pub shown : Result E Text → Result (CoordinatorError E) DatabaseState
  unfolding parse_state
  shown (err e) = err (querying e)
  shown (ok value) = parse_state value

  pub after_reset : C → Option E → W → Result (CoordinatorError E) DatabaseState × W
  unfolding shown show_sql
  after_reset conn (some e) w = (err (resetting e), w)
  after_reset conn none w = let (r, w') = pg.show conn show_sql w in (shown r, w')

  -- `getStateWithConn`
  pub state_with_conn : C → W → Result (CoordinatorError E) DatabaseState × W
  unfolding after_reset reset_sql
  state_with_conn conn w = let (e, w') = pg.exec conn reset_sql [] w in after_reset conn e w'

  -- the verification, and the deferred close
  pub verify :
      C
      → (Result (CoordinatorError E) DatabaseState → Option (CoordinatorError E))
      → W
      → Option (CoordinatorError E) × W
  unfolding state_with_conn
  verify conn check w = let (st, w') = state_with_conn conn w in (check st, pg.close conn w')

  pub after_terminate : C → Option E → W → Option (CoordinatorError E) × W
  unfolding verify verified_read_only
  after_terminate conn (some e) w = (some (terminating e), pg.close conn w)
  after_terminate conn none w = verify conn verified_read_only w

  pub after_alter_on : C → Text → Option E → W → Option (CoordinatorError E) × W
  unfolding after_terminate terminate_sql
  after_alter_on conn database (some e) w = (some (setting_read_only e), pg.close conn w)
  after_alter_on conn database none w =
      let (e, w') = pg.exec conn terminate_sql (database ∷ []) w in after_terminate conn e w'

  pub make_read_only : DbConfig → Result E C → W → Option (CoordinatorError E) × W
  unfolding after_alter_on alter_sql on_text
  make_read_only db (err e) w = (some (connecting e), w)
  make_read_only db (ok conn) w =
      let (e, w') = pg.exec conn (alter_sql db.database on_text) [] w in
      after_alter_on conn db.database e w'

  -- `SetReadOnly`
  unfoldable pub set_read_only : DbConfig → W → Option (CoordinatorError E) × W
  unfolding make_read_only
  set_read_only db w = let (conn, w') = pg.open_session db w in make_read_only db conn w'

  pub after_alter_off : C → Option E → W → Option (CoordinatorError E) × W
  unfolding verify verified_read_write
  after_alter_off conn (some e) w = (some (setting_read_write e), pg.close conn w)
  after_alter_off conn none w = verify conn verified_read_write w

  pub make_read_write : DbConfig → Result E C → W → Option (CoordinatorError E) × W
  unfolding after_alter_off alter_sql off_text
  make_read_write db (err e) w = (some (connecting e), w)
  make_read_write db (ok conn) w =
      let (e, w') = pg.exec conn (alter_sql db.database off_text) [] w in after_alter_off conn e w'

  -- `SetReadWrite`
  unfoldable pub set_read_write : DbConfig → W → Option (CoordinatorError E) × W
  unfolding make_read_write
  set_read_write db w = let (conn, w') = pg.open_session db w in make_read_write db conn w'

  pub read_state : Result E C → W → Result (CoordinatorError E) DatabaseState × W
  unfolding state_with_conn
  read_state (err e) w = (err (connecting e), w)
  read_state (ok conn) w = let (st, w') = state_with_conn conn w in (st, pg.close conn w')

  -- `GetState`
  unfoldable pub get_state : DbConfig → W → Result (CoordinatorError E) DatabaseState × W
  unfolding read_state
  get_state db w = let (conn, w') = pg.open_session db w in read_state conn w'

  -- The coordinator as the interface that the failover manager uses.
  unfoldable pub pg_coordinator : StateCoordinator W (CoordinatorError E)
  unfolding set_read_only set_read_write get_state
  pg_coordinator = record {
    set_read_only = set_read_only;
    set_read_write = set_read_write;
    get_state = get_state;
  }
