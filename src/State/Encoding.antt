-- ===== src/State/Encoding.antt =====
-- The JSON object of a state is read back as the state.
use cloud_comp_project.Base.{
  ℕ, ◌^◌, ◌≡◌, refl, ◌∙◌, true, ltb, some, List, [], ◌∷◌, map, Text, codes, text_eq,
}
use cloud_comp_project.Interfaces.{ok}
use cloud_comp_project.Json.{
  matches_tag, fold_rune, fits_int64, text_from, time_from, int64_from, uint64_from,
}
use cloud_comp_project.State.{
  ReplicationState, StateField, slot_name_field, last_lsn_field, last_flush_time_field,
  events_processed_field, events_failed_field, current_lag_field, active_node_field,
  lock_holder_field, last_failover_time_field, all_fields, tag, node_string, node_of, field_value,
  members, find_field, set_field, set_member, unmarshal,
}

-- The numbers of the state are of their types, and `node_other` is not used for one of the named
-- nodes.
pub record Fits (rs : ReplicationState) : Type 0 where
  pub last_lsn : ltb rs.last_lsn (2 ^ 64) ≡ true
  pub events_processed : fits_int64 rs.events_processed ≡ true
  pub events_failed : fits_int64 rs.events_failed ≡ true
  pub current_lag : fits_int64 rs.current_lag ≡ true
  pub active_node : node_of (node_string rs.active_node) ≡ rs.active_node

tag_found : (f : StateField) → find_field (tag f) all_fields ≡ some f
unfolding find_field tag all_fields matches_tag fold_rune text_eq codes
tag_found slot_name_field = refl
tag_found last_lsn_field = refl
tag_found last_flush_time_field = refl
tag_found events_processed_field = refl
tag_found events_failed_field = refl
tag_found current_lag_field = refl
tag_found active_node_field = refl
tag_found lock_holder_field = refl
tag_found last_failover_time_field = refl

-- the field of the first state in the second
copy : ReplicationState → StateField → ReplicationState → ReplicationState
copy rs slot_name_field to = record to { slot_name = rs.slot_name }
copy rs last_lsn_field to = record to { last_lsn = rs.last_lsn }
copy rs last_flush_time_field to = record to { last_flush_time = rs.last_flush_time }
copy rs events_processed_field to = record to { events_processed = rs.events_processed }
copy rs events_failed_field to = record to { events_failed = rs.events_failed }
copy rs current_lag_field to = record to { current_lag = rs.current_lag }
copy rs active_node_field to = record to { active_node = rs.active_node }
copy rs lock_holder_field to = record to { lock_holder = rs.lock_holder }
copy rs last_failover_time_field to = record to { last_failover_time = rs.last_failover_time }

copy_all : ReplicationState → List StateField → ReplicationState → ReplicationState
unfolding copy
copy_all rs [] to = to
copy_all rs (f ∷ fs) to = copy_all rs fs (copy rs f to)

module _ (time_text : ℕ → Text) (rs : ReplicationState) (fits : Fits rs) where
  field_taken :
      (f : StateField) (to : ReplicationState)
      → set_field time_text f (field_value rs f) to ≡ some (copy rs f to)
  unfolding set_field field_value copy text_from time_from int64_from uint64_from
  field_taken slot_name_field to = refl
  field_taken last_lsn_field to = rw fits.last_lsn refl
  field_taken last_flush_time_field to = refl
  field_taken events_processed_field to = rw fits.events_processed refl
  field_taken events_failed_field to = rw fits.events_failed refl
  field_taken current_lag_field to = rw fits.current_lag refl
  field_taken active_node_field to = rw fits.active_node refl
  field_taken lock_holder_field to = refl
  field_taken last_failover_time_field to = refl

  fields_taken :
      (fs : List StateField) (to : ReplicationState)
      → unmarshal time_text (map (λ f. (tag f, field_value rs f)) fs) to ≡ ok (copy_all rs fs to)
  unfolding unmarshal copy_all set_member
  fields_taken [] to = refl
  fields_taken (f ∷ fs) to =
      rw (unmarshal, tag_found f, field_taken f to) (fields_taken fs (copy rs f to))

  -- Whatever state the object is read into, it becomes the one that was written.
  pub members_read : (to : ReplicationState) → unmarshal time_text (members rs) to ≡ ok rs
  unfolding members
  members_read to = fields_taken all_fields to ∙ unfold all_fields copy_all copy in refl
