-- ===== src/Server/Health.antt =====
-- What the status endpoint answers after a flush.
use cloud_comp_project.Base.{
  ℕ, ◌+◌, ◌≡◌, ◌⊎◌, List, [], ◌∷◌, codes, ltb, add_int64, length, if◌then◌else◌,
}
use cloud_comp_project.Interfaces.{ChangeEvent}
use cloud_comp_project.State.{ReplicationState}
use cloud_comp_project.Engine.{Engine, latest_timestamp}
use cloud_comp_project.Engine.Position.{AreUpTo, Has}
use cloud_comp_project.Server.{StatusResponse, Write, set_header, write_header, encode, unless_zero}

-- The answer after a flush of a batch at the time `t`.
abbrev pub answer_after : ℕ → List ChangeEvent → ReplicationState → ℕ → StatusResponse → List Write
answer_after max_lag batch st t r =
    set_header (codes "Content-Type") (codes "application/json")
    ∷ write_header (if ltb (latest_timestamp 0 batch + max_lag) t then 503 else 200)
    ∷ encode r
    ∷ []

abbrev pub Reports : List ChangeEvent → ReplicationState → ℕ → StatusResponse → Type 0
Reports batch st t r =
    AreUpTo r.last_lsn batch
    × ((r.last_lsn ≡ 0) ⊎ Has r.last_lsn batch)
    × (r.last_flush_time ≡ unless_zero t)
    × (r.events_processed ≡ add_int64 st.events_processed (length batch))
    × (r.events_failed ≡ st.events_failed)
