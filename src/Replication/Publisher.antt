-- ===== src/Replication/Publisher.antt =====
-- state-sync-engine/internal/replication/publisher.go: the publisher, over a pool of connections
-- to the cloud database.
pub mod Rounds
pub mod Batches
use cloud_comp_project.Base.{
  ℕ, zero, suc, ◌+◌, Bool, true, false, ◌==◌, Option, none, some, List, [], ◌∷◌, Text, ℤ, pos,
  negsuc, lt_ℤ, length, take, drop, is_empty, if◌then◌else◌,
}
use cloud_comp_project.Interfaces.{
  Operation, Value, DbConfig, ChangeEvent, Result, ok, err, ReplicationPublisher,
}
use cloud_comp_project.Replication.Sql.{SqlError, Statement, build_dml}

-- What the publisher calls of `pgxpool.Pool` and of `pgx.Tx`, with transactions of a type `T`.
pub record Pool (W T E : Type 0) : Type 0 where
  pub ping : W → Option E × W
  pub begin_tx : W → Result E T × W
  pub exec : T → Text → List Value → W → Option E × W
  pub commit : T → W → Option E × W
  pub rollback : T → W → Option E × W
  pub select_one : W → Result E ℤ × W
  pub close : W → W

pub data PublisherError (E : Type 0) : Type 0 where
  not_initialized : PublisherError E
  opening_pool connecting : E → PublisherError E
  beginning_transaction : E → PublisherError E
  building_statement : SqlError → PublisherError E
  applying_event : Operation → Text → E → PublisherError E
  committing_batch : E → PublisherError E
  -- the loop over the batches is cut off by its fuel, which does not happen
  batches_cut_off : PublisherError E
  health_check_failed : E → PublisherError E
  unexpected_value : ℤ → PublisherError E

-- `batchSize` is an `int` that `NewPublisher` makes positive.
pub record Publisher (W T E : Type 0) : Type 0 where
  pub pool : Option (Pool W T E)
  pub batch_size : ℕ

-- `if batchSize <= 0 { batchSize = 100 }`
unfoldable pub size_of : ℤ → ℕ
size_of (pos zero) = 100
size_of (pos (suc n)) = suc n
size_of (negsuc n) = 100

checked : {W E : Type 0} → Result E ℤ → W → Option (PublisherError E) × W
checked (err e) w = (some (health_check_failed e), w)
checked (ok (pos n)) w = (if n == 1 then none else some (unexpected_value (pos n)), w)
checked (ok (negsuc n)) w = (some (unexpected_value (negsuc n)), w)

module _ {W T E : Type 0} where
  after_ping : Pool W T E → ℤ → Option E → W → Result (PublisherError E) (Publisher W T E) × W
  unfolding size_of
  after_ping pool size none w = (ok (record { pool = some pool; batch_size = size_of size }), w)
  after_ping pool size (some e) w = (err (connecting e), pool.close w)

  after_open : ℤ → Result E (Pool W T E) → W → Result (PublisherError E) (Publisher W T E) × W
  unfolding after_ping
  after_open size (err e) w = (err (opening_pool e), w)
  after_open size (ok pool) w = let (e, w') = pool.ping w in after_ping pool size e w'

  -- `NewPublisher`; `new_pool` is `pgxpool.New` on the connection string for the configuration
  unfoldable pub new_publisher :
      (DbConfig → W → Result E (Pool W T E) × W)
      → DbConfig
      → ℤ
      → W
      → Result (PublisherError E) (Publisher W T E) × W
  unfolding after_open
  new_publisher new_pool config size w =
      let (pool, w') = new_pool config w in after_open size pool w'

  roll_back : Pool W T E → T → PublisherError E → W → Option (PublisherError E) × W
  roll_back pool tx e w = let (_ignored, w') = pool.rollback tx w in (some e, w')

  after_exec : Pool W T E → T → ChangeEvent → Option E → W → Option (PublisherError E) × W
  unfolding roll_back
  after_exec pool tx event none w = (none, w)
  after_exec pool tx event (some e) w =
      roll_back pool tx (applying_event event.operation event.table e) w

  apply_statement :
      Pool W T E → T → ChangeEvent → Result SqlError Statement → W → Option (PublisherError E) × W
  unfolding after_exec roll_back
  apply_statement pool tx event (err e) w = roll_back pool tx (building_statement e) w
  apply_statement pool tx event (ok (query, args)) w =
      let (e, w') = pool.exec tx query args w in after_exec pool tx event e w'

  -- the loop over the events of a batch
  pub apply_events : Pool W T E → T → List ChangeEvent → W → Option (PublisherError E) × W
  unfolding apply_statement
  apply_events pool tx [] w = (none, w)
  apply_events pool tx (event ∷ events) w =
      let (x, w') = apply_statement pool tx event (build_dml event) w in
      elim x [ none ↦ apply_events pool tx events w' | some e ↦ (some e, w') ]

  after_commit : Pool W T E → T → Option E → W → Option (PublisherError E) × W
  unfolding roll_back
  after_commit pool tx none w = (none, w)
  after_commit pool tx (some e) w = roll_back pool tx (committing_batch e) w

  after_events : Pool W T E → T → Option (PublisherError E) → W → Option (PublisherError E) × W
  unfolding after_commit
  after_events pool tx (some e) w = (some e, w)
  after_events pool tx none w = let (e, w') = pool.commit tx w in after_commit pool tx e w'

  after_begin : Pool W T E → List ChangeEvent → Result E T → W → Option (PublisherError E) × W
  unfolding after_events apply_events
  after_begin pool batch (err e) w = (some (beginning_transaction e), w)
  after_begin pool batch (ok tx) w =
      let (x, w') = apply_events pool tx batch w in after_events pool tx x w'

  -- a round of the loop over the batches
  pub publish_batch : Pool W T E → List ChangeEvent → W → Option (PublisherError E) × W
  unfolding after_begin
  publish_batch pool batch w = let (tx, w') = pool.begin_tx w in after_begin pool batch tx w'

  -- The loop over the batches, for the events from `start` on: `events[start:end]` is what `take`
  -- gives, and the rest is what `drop` gives.
  pub publish_batches : Pool W T E → ℕ → ℕ → List ChangeEvent → W → Option (PublisherError E) × W
  unfolding publish_batch
  publish_batches pool size fuel [] w = (none, w)
  publish_batches pool size zero (event ∷ events) w = (some batches_cut_off, w)
  publish_batches pool size (suc fuel) (event ∷ events) w =
      let (x, w') = publish_batch pool (take size (event ∷ events)) w in
      elim x [
        | none ↦ publish_batches pool size fuel (drop size (event ∷ events)) w'
        | some e ↦ (some e, w')
      ]

  publish_on : Option (Pool W T E) → ℕ → List ChangeEvent → W → Option (PublisherError E) × W
  unfolding publish_batches
  publish_on none size events w = (some not_initialized, w)
  publish_on (some pool) size events w =
      if is_empty events then (none, w) else publish_batches pool size (length events) events w

  -- `Publish`. Each round takes an event at least, so the number of the events is fuel enough.
  unfoldable pub publish : Publisher W T E → List ChangeEvent → W → Option (PublisherError E) × W
  unfolding publish_on
  publish p events w = publish_on p.pool p.batch_size events w

  check_on : Option (Pool W T E) → W → Option (PublisherError E) × W
  unfolding checked
  check_on none w = (some not_initialized, w)
  check_on (some pool) w = let (one, w') = pool.select_one w in checked one w'

  -- `HealthCheck`
  unfoldable pub health_check : Publisher W T E → W → Option (PublisherError E) × W
  unfolding check_on
  health_check p w = check_on p.pool w

  close_on : Option (Pool W T E) → W → W
  close_on none w = w
  close_on (some pool) w = pool.close w

  -- `Close`
  unfoldable pub close : Publisher W T E → W → W
  unfolding close_on
  close p w = close_on p.pool w

  -- `Publisher` as the interface that the engine and the failover manager use.
  abbrev pub as_publisher : Publisher W T E → ReplicationPublisher W (PublisherError E)
  as_publisher p = record { publish = publish p; health_check = health_check p }
