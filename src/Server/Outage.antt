-- ===== src/Server/Outage.antt =====
-- What the status endpoint answers while the engine cannot publish.
use cloud_comp_project.Base.{◌≡◌, ◌≢◌, refl, none, some, List, [], ◌∷◌, ℤ, codes, if◌then◌else◌}
use cloud_comp_project.Interfaces.{ChangeEvent}
use cloud_comp_project.State.{ReplicationState}
use cloud_comp_project.Engine.{Environment, Engine}
use cloud_comp_project.Engine.Outage.{OnlyFailures, loop-OnlyFailures}
use cloud_comp_project.Engine.Loop.{Input, loop, current_state}
use cloud_comp_project.Engine.Loop.Rule.{engine_of}
use cloud_comp_project.Server.{
  Write, set_header, write_header, encode, response, healthy, handle_status,
}

-- The answer of a status server whose provider is an engine.
abbrev pub status : ℤ → Engine → List Write
status max_lag e =
    handle_status
      (record { addr = []; provider = λ (e : Engine). current_state e; max_lag = max_lag }) e

-- The answer for a state, with another count of failed events.
abbrev pub answer : ℤ → ReplicationState → ℤ → List Write
answer max_lag st n =
    set_header (codes "Content-Type") (codes "application/json")
    ∷ write_header (if healthy max_lag st then 200 else 503)
    ∷ encode (record (response st) { events_failed = n })
    ∷ []

pub status_of_state :
    (max_lag : ℤ) (e : Engine) (st : ReplicationState)
    → e.state ≡ some st
    → status max_lag e ≡ answer max_lag st st.events_failed
unfolding handle_status current_state response
status_of_state max_lag e st p = rw p refl

status-OnlyFailures :
    (max_lag : ℤ) (e : Engine) (st : ReplicationState)
    → OnlyFailures st e.state
    → (n : ℤ) × (status max_lag e ≡ answer max_lag st n)
unfolding handle_status current_state response healthy
status-OnlyFailures max_lag e st (n, p) = (n, rw p refl)

-- If every publish fails, then whatever the inputs of the loop, the status endpoint answers at its
-- end what it answered at its start, with the same status code, lag, position and time of the last
-- flush: only the count of failed events may differ. In particular an engine that was healthy stays
-- so, however far the cloud falls behind.
pub outage_unnoticed :
    {W E : Type 0} (env : Environment W E) (max_lag : ℤ) (inputs : List Input) (e : Engine) (w : W)
    (st : ReplicationState)
    → ((batch : List ChangeEvent) (w : W) → (env.publisher.publish batch w).0 ≢ none)
    → e.state ≡ some st
    → (status max_lag e ≡ answer max_lag st st.events_failed)
      × (n : ℤ) × (status max_lag (engine_of (loop env e w inputs)) ≡ answer max_lag st n)
outage_unnoticed env max_lag inputs e w st fails p =
    let (n, same) =
      status-OnlyFailures max_lag (engine_of (loop env e w inputs)) st
        (loop-OnlyFailures env fails st inputs e w (st.events_failed, p)) in
    (status_of_state max_lag e st p, n, same)
