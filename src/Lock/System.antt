-- ===== src/Lock/System.antt =====
-- Any number of nodes at one bucket: in each step one node's next request is answered, or time passes.
pub mod Answers
pub mod Contention
pub mod Exclusion
use cloud_comp_project.Base.{ℕ, ◌+◌, Bool, ◌==◌, Text, ℤ, if◌then◌else◌}
use cloud_comp_project.Interfaces.{Result}
use cloud_comp_project.Lock.Bucket.{Program}
use cloud_comp_project.Lock.Gcs.{LockError, GcsLock, acquire}
use cloud_comp_project.Lock.Memory.{Memory, memory_bucket}
use cloud_comp_project.Lock.Race.{turn}

-- What a node that has called `Acquire` still has to do.
abbrev pub Call : Type 0
Call = Program (Unit {0}) (Result (LockError (Unit {0})) Bool)

-- The nodes are numbered.
pub record System : Type 0 where
  pub world : Memory
  pub calls : ℕ → Call

abbrev pub update : (ℕ → Call) → ℕ → Call → ℕ → Call
update f i p j = if i == j then p else f j

pub data Step (s : System) : System → Type 0 where
  runs :
      (i : ℕ)
      → Step s (record {
        world = (turn memory_bucket (s.calls i) s.world).1;
        calls = update s.calls i (turn memory_bucket (s.calls i) s.world).0;
      })
  waits : (d : ℕ) → Step s (record s { world = record s.world { time = s.world.time + d } })

pub data Reach (start : System) : System → Type 0 where
  here : Reach start start
  later : {s t : System} → Reach start s → Step s t → Reach start t

-- Each node calls `Acquire` with the same key and TTL.
abbrev pub contenders : (ℕ → GcsLock) → Text → ℤ → Memory → System
contenders nodes key ttl w = record { world = w; calls = λ i. acquire (nodes i) key ttl }
