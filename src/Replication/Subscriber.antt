-- ===== src/Replication/Subscriber.antt =====
-- state-sync-engine/internal/replication/subscriber.go: the subscriber's state and its methods. The
-- mutex makes each method one step.
pub mod Tuples
pub mod Stream
use cloud_comp_project.Base.{
  ℕ, Bool, true, false, ltb, Option, none, some, List, [], ◌∷◌, ◌++◌, Text, codes, join, is_empty,
  is_blank, not, pos, if◌then◌else◌,
}
use cloud_comp_project.Interfaces.{Lsn, DbConfig, Result, ok, err}
use cloud_comp_project.Replication.Identifier.{quote_identifier, quote_qualified_table}

pub record RelationInfo : Type 0 where
  pub table : Text
  pub columns : List Text

-- `connected` is `replConn != nil`, and `streaming` is `streamCancel != nil`; `relations` is the map
-- `relationByID`, the newest entry of a key first.
pub record Subscriber : Type 0 where
  pub db_config : DbConfig
  pub connected : Bool
  pub relations : List (ℕ × RelationInfo)
  pub last_acked_lsn : Lsn
  pub publication_name : Text
  pub streaming : Bool

-- What the subscriber calls of pgx, pgconn and pglogrepl. `duplicate_object` is the test for the
-- error code 42710.
pub record Postgres (W E : Type 0) : Type 0 where
  pub connect : DbConfig → W → Option E × W
  pub close : W → W
  pub create_slot : Text → W → Option E × W
  pub duplicate_object : E → Bool
  pub publication_exists : Text → W → Result E Bool × W
  pub exec : Text → W → Option E × W
  pub connect_replication : DbConfig → W → Option E × W
  pub start_replication : Text → Lsn → Text → W → Option E × W
  pub send_standby_status : Lsn → W → Option E × W
  pub stop_stream : W → W
  pub close_replication : W → Option E × W

pub data SubscriberError (E : Type 0) : Type 0 where
  slot_required already_connected not_connected : SubscriberError E
  already_active slot_name_required : SubscriberError E
  connecting_local creating_slot connecting_replication : E → SubscriberError E
  connecting_for_publication checking_publication creating_publication : E → SubscriberError E
  invalid_table_name : Text → SubscriberError E
  starting_replication acknowledging closing_connection : E → SubscriberError E

-- the zero value of `DBConfig`
abbrev pub no_config : DbConfig
no_config = record {
  host = [];
  port = pos 0;
  database = [];
  user = [];
  password = [];
  ssl_mode = [];
  ssl_root_cert_path = [];
  replication_slot = [];
}

-- `NewSubscriber`
unfoldable pub new_subscriber : Subscriber
unfolding codes
new_subscriber = record {
  db_config = no_config;
  connected = false;
  relations = [];
  last_acked_lsn = 0;
  publication_name = codes "state_sync_publication";
  streaming = false;
}

module _ {W E : Type 0} (pg : Postgres W E) where
  after_replication :
      DbConfig → Option E → Subscriber → W → Option (SubscriberError E) × Subscriber × W
  after_replication config (some e) s w = (some (connecting_replication e), s, pg.close w)
  after_replication config none s w = (
    none,
    record s { db_config = config; connected = true; relations = []; last_acked_lsn = 0 },
    pg.close w,
  )

  after_slot : DbConfig → Option E → Subscriber → W → Option (SubscriberError E) × Subscriber × W
  unfolding after_replication
  after_slot config none s w =
      let (e, w') = pg.connect_replication config w in after_replication config e s w'
  after_slot config (some e) s w =
      let (e', w') = pg.connect_replication config w in
      if pg.duplicate_object e
      then after_replication config e' s w'
      else (some (creating_slot e), s, pg.close w)

  after_connect : DbConfig → Option E → Subscriber → W → Option (SubscriberError E) × Subscriber × W
  unfolding after_slot
  after_connect config (some e) s w = (some (connecting_local e), s, w)
  after_connect config none s w =
      let (e, w') = pg.create_slot config.replication_slot w in after_slot config e s w'

  -- `Connect`
  unfoldable pub connect : DbConfig → Subscriber → W → Option (SubscriberError E) × Subscriber × W
  unfolding after_connect
  connect config s w =
      let (e, w') = pg.connect config w in
      if is_blank config.replication_slot
      then (some slot_required, s, w)
      else if s.connected
      then (some already_connected, s, w)
      else after_connect config e s w'

  quote_tables : List Text → Result Text (List Text)
  unfolding quote_qualified_table
  quote_tables [] = ok []
  quote_tables (t ∷ ts) = elim (quote_qualified_table t) [
    | err name ↦ err name
    | ok q ↦ elim (quote_tables ts) [ err name ↦ err name | ok qs ↦ ok (q ∷ qs) ]
  ]

  -- the statement that creates the publication
  publication_statement : Text → List Text → Result Text Text
  unfolding quote_tables quote_identifier codes join
  publication_statement name [] =
      ok (codes "CREATE PUBLICATION " ++ quote_identifier name ++ codes " FOR ALL TABLES")
  publication_statement name (t ∷ ts) = elim (quote_tables (t ∷ ts)) [
    | err bad ↦ err bad
    | ok quoted ↦ ok (
        codes "CREATE PUBLICATION "
        ++ quote_identifier name
        ++ codes " FOR TABLE "
        ++ join (codes ", ") quoted)
  ]

  after_create : Option E → W → Option (SubscriberError E) × W
  after_create none w = (none, pg.close w)
  after_create (some e) w =
      (if pg.duplicate_object e then none else some (creating_publication e), pg.close w)

  create_publication : Result Text Text → W → Option (SubscriberError E) × W
  unfolding after_create
  create_publication (err name) w = (some (invalid_table_name name), pg.close w)
  create_publication (ok statement) w = let (e, w') = pg.exec statement w in after_create e w'

  after_exists : Subscriber → List Text → Result E Bool → W → Option (SubscriberError E) × W
  unfolding create_publication publication_statement
  after_exists s tables (err e) w = (some (checking_publication e), pg.close w)
  after_exists s tables (ok true) w = (none, pg.close w)
  after_exists s tables (ok false) w =
      create_publication (publication_statement s.publication_name tables) w

  connected_for : Subscriber → List Text → Option E → W → Option (SubscriberError E) × W
  unfolding after_exists
  connected_for s tables (some e) w = (some (connecting_for_publication e), w)
  connected_for s tables none w =
      let (r, w') = pg.publication_exists s.publication_name w in after_exists s tables r w'

  -- `ensurePublication`
  unfoldable pub ensure_publication : Subscriber → List Text → W → Option (SubscriberError E) × W
  unfolding connected_for
  ensure_publication s tables w =
      let (e, w') = pg.connect s.db_config w in connected_for s tables e w'

  after_start : Option E → Subscriber → W → Option (SubscriberError E) × Subscriber × W
  after_start (some e) s w = (some (starting_replication e), s, w)
  after_start none s w = (none, record s { streaming = true }, w)

  after_ensure :
      Text
      → Option (SubscriberError E)
      → Subscriber
      → W
      → Option (SubscriberError E) × Subscriber × W
  unfolding after_start
  after_ensure slot (some e) s w = (some e, s, w)
  after_ensure slot none s w =
      let (e, w') = pg.start_replication slot s.last_acked_lsn s.publication_name w in
      after_start e s w'

  -- `Subscribe`, up to the start of the goroutine
  unfoldable pub subscribe :
      Text → List Text → Subscriber → W → Option (SubscriberError E) × Subscriber × W
  unfolding after_ensure ensure_publication
  subscribe name tables s w =
      let slot = if is_blank name then s.db_config.replication_slot else name in
      let (e, w') = ensure_publication s tables w in
      if not s.connected
      then (some not_connected, s, w)
      else if s.streaming
      then (some already_active, s, w)
      else if is_blank slot
      then (some slot_name_required, s, w)
      else after_ensure slot e s w'

  after_status : Lsn → Option E → Subscriber → W → Option (SubscriberError E) × Subscriber × W
  after_status lsn (some e) s w = (some (acknowledging e), s, w)
  after_status lsn none s w = (
    none,
    record s { last_acked_lsn = if ltb s.last_acked_lsn lsn then lsn else s.last_acked_lsn },
    w,
  )

  -- `Acknowledge`
  unfoldable pub acknowledge : Lsn → Subscriber → W → Option (SubscriberError E) × Subscriber × W
  unfolding after_status
  acknowledge lsn s w =
      let (e, w') = pg.send_standby_status lsn w in
      if s.connected then after_status lsn e s w' else (some not_connected, s, w)

  closing : Option E → Option (SubscriberError E)
  closing none = none
  closing (some e) = some (closing_connection e)

  -- `Close`
  unfoldable pub close : Subscriber → W → Option (SubscriberError E) × Subscriber × W
  unfolding closing
  close s w =
      let closed = record s { connected = false; streaming = false } in
      let w1 = if s.streaming then pg.stop_stream w else w in
      let (e, w2) = pg.close_replication w1 in
      if s.connected then (closing e, closed, w2) else (none, closed, w1)
