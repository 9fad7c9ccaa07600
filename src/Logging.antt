-- ===== src/Logging.antt =====
-- state-sync-engine/internal/logging/logger.go: the correlation ID of a context. The configuration of
-- the logger is a call of the zap library.
use cloud_comp_project.Base.{List, [], ◌∷◌, ◌++◌, Text, codes, is_empty, if◌then◌else◌}

-- The keys of context values: that of this package, of its own type, or another.
pub data Key : Type 0 where
  correlation_id_key : Key
  other_key : Text → Key

-- `context.WithValue` on a context without values; a value is a string or something else.
pub data Held : Type 0 where
  text_held : Text → Held
  other_held : Held

pub data Context : Type 0 where
  no_values : Context
  with_value : Key → Held → Context → Context

-- `WithCorrelationID`
unfoldable pub with_correlation_id : Context → Text → Context
with_correlation_id ctx id = with_value correlation_id_key (text_held id) ctx

-- `CorrelationID`
unfoldable pub correlation_id : Context → Text
correlation_id no_values = []
correlation_id (with_value correlation_id_key (text_held id) ctx) = id
correlation_id (with_value correlation_id_key other_held ctx) = []
correlation_id (with_value (other_key k) v ctx) = correlation_id ctx

-- `WithContext`, for a logger with its fields
unfoldable pub with_context : List (Text × Text) → Context → List (Text × Text)
unfolding correlation_id codes
with_context fields ctx =
    let id = correlation_id ctx in
    if is_empty id then fields else fields ++ (codes "correlation_id", id) ∷ []
