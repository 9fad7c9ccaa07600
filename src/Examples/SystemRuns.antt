-- ===== src/Examples/SystemRuns.antt =====
-- A run of two nodes that call `Acquire`: the first gets the lock, then the second is refused.
use cloud_comp_project.Base.{
  ℕ, ◌+◌, ◌*◌, ◌==◌, if◌then◌else◌, time_add, ◌≡◌, refl, true, false, pos, arith, second, text_eq,
}
use cloud_comp_project.Interfaces.{ok}
use cloud_comp_project.Lock.Bucket.{return, format_rfc3339}
use cloud_comp_project.Lock.Gcs.{GcsLock, acquire}
use cloud_comp_project.Lock.Memory.{memory_bucket}
use cloud_comp_project.Lock.Race.{turn}
use cloud_comp_project.Lock.System.{System, update, Reach, here, later, runs, waits, contenders}
use cloud_comp_project.Lock.System.Exclusion.{acquire_exclusive}
use cloud_comp_project.Examples.LockRuns.{local_node, cloud_node, key, empty_bucket}

abbrev nodes : ℕ → GcsLock
nodes i = if i == 0 then local_node else cloud_node

abbrev start : System
start = contenders nodes key (pos (30 * second)) empty_bucket

-- the node's next request is answered
abbrev after : System → ℕ → System
after s i = record {
  world = (turn memory_bucket (s.calls i) s.world).1;
  calls = update s.calls i (turn memory_bucket (s.calls i) s.world).0;
}

abbrev seconds_later : System
seconds_later = record start {
  world = record empty_bucket { time = empty_bucket.time + 3 * second };
}

abbrev one_won : System
one_won = after (after (after seconds_later 1) 0) 0

abbrev finish : System
finish = after (after (after one_won 1) 1) 1

reached : Reach start finish
reached =
    later
      (later
        (later (later (later (later (later here (waits (3 * second))) (runs 1)) (runs 0)) (runs 0))
          (runs 1))
        (runs 1))
      (runs 1)

won : finish.calls 0 ≡ return (ok true)
unfolding turn acquire text_eq
won = refl

refused : finish.calls 1 ≡ return (ok false)
unfolding turn acquire text_eq format_rfc3339 time_add
refused = refl

acquire_exclusive_example : ◌≡◌ {A = ℕ} 0 0
unfolding turn acquire text_eq format_rfc3339
acquire_exclusive_example =
    acquire_exclusive nodes key (30 * second) empty_bucket finish 0 0 refl reached (omega arith) won
      won
