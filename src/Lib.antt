-- ===== src/Lib.antt =====
-- The State Sync Engine of Cloud Mirror (state-sync-engine/, in Go): a process that copies the
-- changes of a local PostgreSQL database to a database in the cloud, and that keeps one writer by a
-- lock in Cloud Storage.
--
-- The parts and their files:
--   Interfaces.antt     state-sync-engine/pkg/interfaces: change events, database states, and the
--                       interfaces of the components as records of methods.
--   Retry/              state-sync-engine/internal/retry: `Delay` (Backoff), the loop `Do` (Loop), and
--                       the circuit breaker (Breaker).
--   Lock/               state-sync-engine/internal/lock: `Acquire`, `Renew`, `Release` and `GetHolder`
--                       (Gcs) as programs of requests to a bucket (Bucket). Memory is a bucket that
--                       meets the assumptions; Race lets two nodes take turns, System any
--                       number.
--   State.antt          state-sync-engine/internal/state: the replication state and its JSON object;
--                       `Save` and `Load` (State/Store). Json.antt has what it uses of
--                       encoding/json.
--   Config.antt         state-sync-engine/internal/config: the configuration and `Validate`.
--   Metrics.antt        state-sync-engine/internal/metrics: the reports of the components; `New` (Registration).
--   Engine.antt         state-sync-engine/internal/engine: the buffer, `flush`; Engine/Loop.antt has
--                       `loop`, `shutdown` and `Run`.
--   Coordinator.antt    state-sync-engine/internal/coordinator: `SetReadOnly`, `SetReadWrite`, `GetState`.
--   Failover.antt       state-sync-engine/internal/failover: `check` and what it calls.
--   Replication/        state-sync-engine/internal/replication: names and their quoting (Identifier),
--                       the statement for an event (Sql) and a reader of statements (Sql/Reading,
--                       Sql/Meaning), `Publish` in batches (Publisher), and the
--                       subscriber, whose `consumeStream` is in Subscriber/Stream.antt.
--   Server.antt         state-sync-engine/internal/server: `handleStatus`, and the start of the servers.
--   Connection.antt     the connection strings of the replication and the coordinator packages, with what
--                       they use of net/url (Escape), and a reader of URLs (Reading, Urls).
--   Logging.antt        state-sync-engine/internal/logging: the correlation ID of a context.
--   Command.antt        state-sync-engine/cmd/state-sync: `main`.
--   Examples/           tests, and the theorems at concrete inputs.
--   Base/               Boolean tests, lists, signed numbers and texts that all parts share.
--
-- How they interact: the engine takes events from the subscriber into its buffer, and flushes the
-- buffer to the publisher under the circuit breaker and the retry loop; after a publish it
-- acknowledges the highest position and saves its state in the store. The failover manager reads the
-- holder of the lock, and switches the local database by the coordinator. The status server shows the
-- engine's state.
--
-- How the code is read: a method that changes its receiver is a function that returns the new record.
-- Calls of other systems change a state `W` of the world, and enter as records of functions: the
-- interfaces, a bucket, a file system, the clock. What the proofs assume of them are records named
-- `Is…` or `Has…` beside the proofs. A mutex makes a method one step, and each of the engine's and the
-- manager's states is changed by one goroutine. Log lines are left out. A text is the list of its code
-- points, a time the nanoseconds since Go's zero time. `int` and `int64` are signed numbers; where the
-- code counts up, the count wraps around at 2 ^ 63. Positions in the log (`LSN`, a `uint64`) are only
-- compared. Backoff multipliers are whole numbers, for which the float64 product is exact up to the cap.
-- The JSON object of the replication state is the list of its members, whose characters are not
-- spelled out; the object of a lock holds the encoding of its record, or what does not decode. An
-- RFC 3339 text stands for the time that it denotes.
--
-- Loops: the retry loop is on fuel; with a limit on the attempts, as many rounds as the limit are
-- enough. `Run` of the engine connects with no limit, so its fuel is an argument. `Publish` runs on
-- fuel too; as many rounds as there are events are enough, since a batch has at least one. The loops
-- of the engine, of the manager and of the stream run on the list of what they receive.
--
-- The engine's `delivered` events are those of the calls of `Publish` that returned nil. Of a call that
-- failed, the cloud database may have some of the publisher's batches: Engine/Delivery.antt is about
-- the statements that it has committed.
--
-- Not modelled: the configuration of the zap logger, signals, and the parsing of the command line,
-- which only call libraries.
pub mod Base
pub mod Interfaces
pub mod Retry
pub mod Lock
pub mod Config
pub mod Json
pub mod State
pub mod Metrics
pub mod Engine
pub mod Replication
pub mod Coordinator
pub mod Failover
pub mod Connection
pub mod Logging
pub mod Command
pub mod Server
mod Examples
