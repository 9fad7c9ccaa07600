-- ===== src/Interfaces.antt =====
-- state-sync-engine/pkg/interfaces/interfaces.go. An interface is a record of its methods over a
-- state `W` of the world, with errors of a type `E`. A context is no argument here: what a
-- cancelled one does to a method is an error that the method returns.
use cloud_comp_project.Base.{ℕ, ℤ, Bool, Option, List, Text}

-- `LSN`, a `uint64`
abbrev pub Lsn : Type 0
Lsn = ℕ

-- `Operation`, a string type with three constants
pub data Operation : Type 0 where
  operation_insert operation_update operation_delete : Operation
  operation_other : Text → Operation

-- A value of a row: `nil`, or a string.
pub data Value : Type 0 where
  null : Value
  string : Text → Value

-- `map[string]any`, the entries in some order
abbrev pub Row : Type 0
Row = List (Text × Value)

pub record ChangeEvent : Type 0 where
  pub lsn : Lsn
  pub timestamp : ℕ
  pub table : Text
  pub operation : Operation
  pub old_row : Row
  pub new_row : Row

pub data DatabaseState : Type 0 where
  read_only read_write : DatabaseState

pub record DbConfig : Type 0 where
  pub host : Text
  pub port : ℤ
  pub database : Text
  pub user : Text
  pub password : Text
  pub ssl_mode : Text
  pub ssl_root_cert_path : Text
  pub replication_slot : Text

-- `(A, error)`
pub data Result {ℓ} (E A : Type ℓ) : Type ℓ where
  ok : A → Result E A
  err : E → Result E A

-- The channel that `subscribe` returns is the engine's input (Engine.Loop).
pub record ReplicationSubscriber (W E : Type 0) : Type 0 where
  pub connect : DbConfig → W → Option E × W
  pub subscribe : Text → List Text → W → Option E × W
  pub acknowledge : Lsn → W → Option E × W
  pub close : W → Option E × W

pub record ReplicationPublisher (W E : Type 0) : Type 0 where
  pub publish : List ChangeEvent → W → Option E × W
  pub health_check : W → Option E × W

pub record DistributedLock (W E : Type 0) : Type 0 where
  pub acquire : Text → ℤ → W → Result E Bool × W
  pub renew : Text → ℤ → W → Option E × W
  pub release : Text → W → Option E × W
  pub get_holder : Text → W → Result E Text × W

pub record StateCoordinator (W E : Type 0) : Type 0 where
  pub set_read_only : DbConfig → W → Option E × W
  pub set_read_write : DbConfig → W → Option E × W
  pub get_state : DbConfig → W → Result E DatabaseState × W
