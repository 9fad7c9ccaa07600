-- ===== src/Server.antt =====
-- state-sync-engine/internal/server/server.go: the metrics server and the status server. The servers
-- of `net/http` are a parameter.
pub mod Duration
pub mod Outage
pub mod Health
use cloud_comp_project.Base.{
  ℕ, zero, suc, Bool, true, false, not, ◌&&◌, ◌==◌, Option, none, some, List, [], ◌∷◌, ◌++◌, ℤ, pos,
  negsuc, lt_ℤ, is_pos, Text, text_eq, codes, decimal, is_empty, if◌then◌else◌,
}
use cloud_comp_project.Interfaces.{Lsn}
use cloud_comp_project.Lock.Bucket.{Stamp, instant, unparsed, format_rfc3339}
use cloud_comp_project.State.{ReplicationState, NodeType, node_local, node_cloud, node_other}
use cloud_comp_project.Server.Duration.{duration_string}

-- What the servers use of `http.Server`: `ListenAndServe` in a goroutine, on an address, and
-- `Shutdown`.
pub record Http (W E : Type 0) : Type 0 where
  pub listen_and_serve : Text → W → W
  pub shutdown : Text → W → Option E × W

-- `fmt.Sprintf(":%d", port)`
pub address : ℤ → Text
unfolding codes decimal
address (pos n) = codes ":" ++ decimal n
address (negsuc n) = codes ":-" ++ decimal (suc n)

-- `string(node)`
pub node_text : NodeType → Text
unfolding codes
node_text node_local = codes "local"
node_text node_cloud = codes "cloud"
node_text (node_other s) = s

-- `StatusResponse`; an RFC 3339 text stands for its time.
pub record StatusResponse : Type 0 where
  pub active_node : Text
  pub replication_lag : Text
  pub lock_holder : Text
  pub last_failover_time : Stamp
  pub events_processed : ℤ
  pub events_failed : ℤ
  pub last_lsn : Lsn
  pub last_flush_time : Stamp
  pub slot_name : Text

pub data JsonValue : Type 0 where
  text_value : Text → JsonValue
  time_value : ℕ → JsonValue
  number_value : ℤ → JsonValue

abbrev pub Field : Type 0
Field = Text × JsonValue

-- a field with `omitempty`
pub unless_empty : Text → Stamp → List Field → List Field
unless_empty name (instant t) rest = (name, time_value t) ∷ rest
unless_empty name (unparsed []) rest = rest
unless_empty name (unparsed (c ∷ s)) rest = (name, text_value (c ∷ s)) ∷ rest

-- the JSON object of a response, by the tags of the struct
unfoldable pub fields : StatusResponse → List Field
unfolding unless_empty codes
fields r =
    (codes "active_node", text_value r.active_node)
    ∷ (codes "replication_lag", text_value r.replication_lag)
    ∷ (codes "lock_holder", text_value r.lock_holder)
    ∷ unless_empty (codes "last_failover_time") r.last_failover_time (
        (codes "events_processed", number_value r.events_processed)
        ∷ (codes "events_failed", number_value r.events_failed)
        ∷ (codes "last_lsn", number_value (pos r.last_lsn))
        ∷ unless_empty (codes "last_flush_time") r.last_flush_time
            ((codes "slot_name", text_value r.slot_name) ∷ []))

-- What a handler does with its `http.ResponseWriter`.
pub data Write : Type 0 where
  set_header : Text → Text → Write
  write_header : ℕ → Write
  encode : StatusResponse → Write

-- `if !t.IsZero() { … = t.Format(time.RFC3339) }`
pub unless_zero : ℕ → Stamp
unfolding format_rfc3339
unless_zero t = if t == 0 then unparsed [] else format_rfc3339 t

unfoldable pub response : ReplicationState → StatusResponse
unfolding node_text duration_string unless_zero
response st = record {
  active_node = node_text st.active_node;
  replication_lag = duration_string st.current_lag;
  lock_holder = st.lock_holder;
  last_failover_time = unless_zero st.last_failover_time;
  events_processed = st.events_processed;
  events_failed = st.events_failed;
  last_lsn = st.last_lsn;
  last_flush_time = unless_zero st.last_flush_time;
  slot_name = st.slot_name;
}

unfoldable pub healthy : ℤ → ReplicationState → Bool
healthy max_lag st = not (is_pos max_lag && lt_ℤ max_lag st.current_lag)

-- `StatusServer`, with its `StateProvider`
pub record StatusServer (W : Type 0) : Type 0 where
  pub addr : Text
  pub provider : W → ReplicationState
  pub max_lag : ℤ

-- `MetricsServer`
pub record MetricsServer : Type 0 where
  pub addr : Text

-- `NewMetricsServer`
unfoldable pub new_metrics_server : ℤ → MetricsServer
unfolding address
new_metrics_server port = record { addr = address port }

module _ {W : Type 0} where
  -- `NewStatusServer`
  unfoldable pub new_status_server : ℤ → (W → ReplicationState) → ℤ → StatusServer W
  unfolding address
  new_status_server port provider max_lag = record {
    addr = address port;
    provider = provider;
    max_lag = max_lag;
  }

  -- `handleStatus`, which only logs an error of the encoding
  unfoldable pub handle_status : StatusServer W → W → List Write
  unfolding response healthy codes
  handle_status s w =
      let st = s.provider w in
      set_header (codes "Content-Type") (codes "application/json")
      ∷ write_header (if healthy s.max_lag st then 200 else 503)
      ∷ encode (response st)
      ∷ []

  -- the mux: a request for another path than its one pattern is not handled
  unfoldable pub serve : StatusServer W → Text → W → Option (List Write)
  unfolding handle_status codes text_eq
  serve s path w = if text_eq path (codes "/status") then some (handle_status s w) else none

module _ {W E : Type 0} (http : Http W E) where
  -- `Start` and `Shutdown`, which are the same for both servers. An error of listening is only
  -- logged, in the goroutine.
  unfoldable pub start : Text → W → Option E × W
  start addr w = (none, http.listen_and_serve addr w)

  unfoldable pub stop : Text → W → Option E × W
  stop addr w = http.shutdown addr w
