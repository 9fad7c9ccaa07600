-- ===== src/State/Store.antt =====
-- state-sync-engine/internal/state/state.go: `NewStore`, `Save` and `Load`. The file system is a
-- parameter.
use cloud_comp_project.Base.{ℕ, ◌++◌, Option, none, some, Text, codes, is_empty, if◌then◌else◌}
use cloud_comp_project.Interfaces.{Result, ok, err}
use cloud_comp_project.Json.{Members}
use cloud_comp_project.State.{ReplicationState, node_local, zero_state, marshal, unmarshal}

-- What a file holds: a JSON object, the null of JSON, or what is neither.
pub data FileBody : Type 0 where
  object : Members → FileBody
  null_literal : FileBody
  other_bytes : Text → FileBody

-- `os.ReadFile`; the second error is `os.ErrNotExist`.
pub data ReadFile (E : Type 0) : Type 0 where
  file_body : FileBody → ReadFile E
  not_exist : ReadFile E
  read_error : E → ReadFile E

-- What the store uses of the packages `os` and `path/filepath`, and the characters of a time, as
-- package `time` writes it.
pub record FileSystem (W E : Type 0) : Type 0 where
  pub dir : Text → Text
  pub time_text : ℕ → Text
  pub mkdir_all : Text → W → Option E × W
  pub write_file : Text → FileBody → W → Option E × W
  pub rename : Text → Text → W → Option E × W
  pub remove : Text → W → Option E × W
  pub read_file : Text → W → ReadFile E × W

pub data StoreError (E : Type 0) : Type 0 where
  creating_directory writing_temp_file renaming_temp_file reading_file : E → StoreError E
  marshaling_state : StoreError E
  parsing_file : Text → StoreError E

pub record Store : Type 0 where
  pub path : Text

-- `NewStore`
unfoldable pub new_store : Text → Store
unfolding codes
new_store path = record {
  path = if is_empty path then codes "/var/lib/state-sync/replication.state" else path;
}

-- the path of the temporary file
unfoldable pub tmp_file : Store → Text
unfolding codes
tmp_file s = s.path ++ codes ".tmp"

module _ {W E : Type 0} (fs : FileSystem W E) where
  unfoldable pub after_rename : Store → Option E → W → Option (StoreError E) × W
  after_rename s none w = (none, w)
  after_rename s (some e) w =
      let (_ignored, w') = fs.remove (tmp_file s) w in (some (renaming_temp_file e), w')

  unfoldable pub after_write : Store → Option E → W → Option (StoreError E) × W
  unfolding after_rename
  after_write s (some e) w = (some (writing_temp_file e), w)
  after_write s none w = let (e, w') = fs.rename (tmp_file s) s.path w in after_rename s e w'

  unfoldable pub after_marshal : Store → Option Members → W → Option (StoreError E) × W
  unfolding after_write
  after_marshal s none w = (some marshaling_state, w)
  after_marshal s (some ms) w =
      let (e, w') = fs.write_file (tmp_file s) (object ms) w in after_write s e w'

  unfoldable pub after_mkdir : Store → ReplicationState → Option E → W → Option (StoreError E) × W
  unfolding after_marshal marshal
  after_mkdir s rs (some e) w = (some (creating_directory e), w)
  after_mkdir s rs none w = after_marshal s (marshal rs) w

  -- `Save`
  unfoldable pub save : Store → ReplicationState → W → Option (StoreError E) × W
  unfolding after_mkdir tmp_file
  save s rs w = let (e, w') = fs.mkdir_all (fs.dir s.path) w in after_mkdir s rs e w'

  unfoldable pub read_back : Result Text ReplicationState → Result (StoreError E) ReplicationState
  read_back (err x) = err (parsing_file x)
  read_back (ok rs) = ok rs

  unfoldable pub loaded : ReadFile E → Result (StoreError E) ReplicationState
  unfolding zero_state unmarshal read_back
  loaded not_exist = ok (record zero_state { active_node = node_local })
  loaded (read_error e) = err (reading_file e)
  loaded (file_body (object ms)) = read_back (unmarshal fs.time_text ms zero_state)
  loaded (file_body null_literal) = ok zero_state
  loaded (file_body (other_bytes s)) = err (parsing_file s)

  -- `Load`
  unfoldable pub load : Store → W → Result (StoreError E) ReplicationState × W
  unfolding loaded
  load s w = let (r, w') = fs.read_file s.path w in (loaded r, w')
