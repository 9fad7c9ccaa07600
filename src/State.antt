-- ===== src/State.antt =====
-- state-sync-engine/internal/state/state.go: the replication state and its JSON object. The store
-- that keeps it in a file is in State/Store.antt.
pub mod Store
pub mod Encoding
pub mod Atomic
use mathlib.Core.Option as Option
use cloud_comp_project.Base.{
  ℕ, ℤ, pos, Bool, true, false, ◌&&◌, Option, none, some, List, [], ◌∷◌, map, Text, codes, text_eq,
  if◌then◌else◌,
}
use cloud_comp_project.Interfaces.{Lsn, Result, ok, err}
use cloud_comp_project.Json.{
  MemberValue, json_string, json_time, json_number, Members, matches_tag, is_writable_time,
  text_from, time_from, int64_from, uint64_from,
}

-- `NodeType`, a string type with two constants
pub data NodeType : Type 0 where
  node_local node_cloud : NodeType
  node_other : Text → NodeType

pub record ReplicationState : Type 0 where
  pub slot_name : Text
  pub last_lsn : Lsn
  pub last_flush_time : ℕ
  pub events_processed : ℤ
  pub events_failed : ℤ
  pub current_lag : ℤ
  pub active_node : NodeType
  pub lock_holder : Text
  pub last_failover_time : ℕ

-- `ReplicationState{}`
unfoldable pub zero_state : ReplicationState
zero_state = record {
  slot_name = [];
  last_lsn = 0;
  last_flush_time = 0;
  events_processed = pos 0;
  events_failed = pos 0;
  current_lag = pos 0;
  active_node = node_other [];
  lock_holder = [];
  last_failover_time = 0;
}

-- The fields of `ReplicationState`.
pub data StateField : Type 0 where
  slot_name_field last_lsn_field last_flush_time_field : StateField
  events_processed_field events_failed_field current_lag_field : StateField
  active_node_field lock_holder_field last_failover_time_field : StateField

-- in the order of the struct, in which they are written
pub all_fields : List StateField
all_fields =
    slot_name_field ∷ last_lsn_field ∷ last_flush_time_field ∷ events_processed_field
    ∷ events_failed_field ∷ current_lag_field ∷ active_node_field ∷ lock_holder_field
    ∷ last_failover_time_field ∷ []

-- their `json` tags
pub tag : StateField → Text
unfolding codes
tag slot_name_field = codes "slot_name"
tag last_lsn_field = codes "last_lsn"
tag last_flush_time_field = codes "last_flush_time"
tag events_processed_field = codes "events_processed"
tag events_failed_field = codes "events_failed"
tag current_lag_field = codes "current_lag"
tag active_node_field = codes "active_node"
tag lock_holder_field = codes "lock_holder"
tag last_failover_time_field = codes "last_failover_time"

-- a `NodeType` as the string that it is
unfoldable pub node_string : NodeType → Text
unfolding codes
node_string node_local = codes "local"
node_string node_cloud = codes "cloud"
node_string (node_other s) = s

unfoldable pub node_of : Text → NodeType
unfolding codes text_eq
node_of s =
    if text_eq s (codes "local")
    then node_local
    else if text_eq s (codes "cloud")
    then node_cloud
    else node_other s

-- What is written for a field. The option `omitempty` of the last one does nothing: a struct such as
-- `time.Time` is never empty to encoding/json.
pub field_value : ReplicationState → StateField → MemberValue
unfolding node_string
field_value rs slot_name_field = json_string rs.slot_name
field_value rs last_lsn_field = json_number (pos rs.last_lsn)
field_value rs last_flush_time_field = json_time rs.last_flush_time
field_value rs events_processed_field = json_number rs.events_processed
field_value rs events_failed_field = json_number rs.events_failed
field_value rs current_lag_field = json_number rs.current_lag
field_value rs active_node_field = json_string (node_string rs.active_node)
field_value rs lock_holder_field = json_string rs.lock_holder
field_value rs last_failover_time_field = json_time rs.last_failover_time

pub members : ReplicationState → Members
unfolding all_fields tag field_value
members rs = map (λ f. (tag f, field_value rs f)) all_fields

-- `json.MarshalIndent`, which fails on a time that cannot be written
unfoldable pub marshal : ReplicationState → Option Members
unfolding members is_writable_time
marshal rs =
    if is_writable_time rs.last_flush_time && is_writable_time rs.last_failover_time
    then some (members rs)
    else none

-- the field that a member's name is matched with
pub find_field : Text → List StateField → Option StateField
unfolding tag matches_tag
find_field name [] = none
find_field name (f ∷ fs) =
    let rest = find_field name fs in if matches_tag (tag f) name then some f else rest

-- A value for a field, which may be refused.
pub set_field : (ℕ → Text) → StateField → MemberValue → ReplicationState → Option ReplicationState
unfolding text_from time_from int64_from uint64_from node_string node_of
set_field time_text slot_name_field v rs =
    Option.map (λ x. record rs { slot_name = x }) (text_from time_text rs.slot_name v)
set_field time_text last_lsn_field v rs =
    Option.map (λ x. record rs { last_lsn = x }) (uint64_from rs.last_lsn v)
set_field time_text last_flush_time_field v rs =
    Option.map (λ x. record rs { last_flush_time = x }) (time_from rs.last_flush_time v)
set_field time_text events_processed_field v rs =
    Option.map (λ x. record rs { events_processed = x }) (int64_from rs.events_processed v)
set_field time_text events_failed_field v rs =
    Option.map (λ x. record rs { events_failed = x }) (int64_from rs.events_failed v)
set_field time_text current_lag_field v rs =
    Option.map (λ x. record rs { current_lag = x }) (int64_from rs.current_lag v)
set_field time_text active_node_field v rs =
    Option.map (λ x. record rs { active_node = node_of x })
      (text_from time_text (node_string rs.active_node) v)
set_field time_text lock_holder_field v rs =
    Option.map (λ x. record rs { lock_holder = x }) (text_from time_text rs.lock_holder v)
set_field time_text last_failover_time_field v rs =
    Option.map (λ x. record rs { last_failover_time = x }) (time_from rs.last_failover_time v)

-- A member without a field is skipped.
set_member :
    (ℕ → Text) → Option StateField → MemberValue → ReplicationState → Option ReplicationState
unfolding set_field
set_member time_text none v rs = some rs
set_member time_text (some f) v rs = set_field time_text f v rs

-- `json.Unmarshal` of an object: its members in order, or the name of one whose value is refused
unfoldable pub unmarshal : (ℕ → Text) → Members → ReplicationState → Result Text ReplicationState
unfolding find_field all_fields set_member
unmarshal time_text [] rs = ok rs
unmarshal time_text ((name, v) ∷ ms) rs =
    elim (set_member time_text (find_field name all_fields) v rs) [
      | none ↦ err name
      | some rs' ↦ unmarshal time_text ms rs'
    ]
