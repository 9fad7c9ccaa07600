-- ===== src/Examples/StateRuns.antt =====
-- Runs of the state store on a file system in memory, where no request fails.
use cloud_comp_project.Base.{
  codes, pos, negsuc, second, ◌*◌, ◌^◌, ◌≡◌, ◌≢◌, ◌⊎◌, refl, Option, none, some, [], ◌∷◌, Text,
  text_eq, text_eq_self, text_eq_iff, arith, if◌then◌else◌,
}
use cloud_comp_project.Interfaces.{ok, err}
use cloud_comp_project.Json.{
  json_number, json_null, json_other, matches_tag, fold_rune, is_writable_time, fits_int64,
  text_from, time_from, int64_from, uint64_from,
}
use cloud_comp_project.State.{
  ReplicationState, node_local, zero_state, node_of, node_string, marshal, unmarshal,
}
use cloud_comp_project.State.Store.{
  FileBody, ReadFile, file_body, not_exist, FileSystem, Store, save, load,
}
use cloud_comp_project.State.Encoding.{Fits}
use cloud_comp_project.State.Atomic.{IsFileSystem, Saved, save_atomic, LoadsSaved, save_load}

abbrev Files : Type 0
Files = Text → Option FileBody

abbrev set_at : Text → Option FileBody → Files → Files
set_at q b w p = if text_eq q p then b else w p

abbrev read_in : Option FileBody → ReadFile (Unit {0})
read_in none = not_exist
read_in (some b) = file_body b

abbrev memory_files : FileSystem Files (Unit {0})
memory_files = record {
  dir = λ p. p;
  time_text = λ t. [];
  mkdir_all = λ d w. (none, w);
  write_file = λ q b w. (none, set_at q (some b) w);
  rename = λ q p w. (none, set_at p (w q) w);
  remove = λ q w. (none, set_at q none w);
  read_file = λ p w. (read_in (w p), w);
}

other_path : (q p : Text) (b : Option FileBody) (w : Files) → p ≢ q → set_at q b w p ≡ w p
other_path q p b w h = ground (arith, text_eq_iff q p)

memory_files-IsFileSystem : IsFileSystem memory_files (λ w. w)
memory_files-IsFileSystem = record {
  mkdir_keeps = λ w d p. refl;
  write_other = λ w q p b h. other_path q p (some b) w h;
  write_done = λ w q b h. rw text_eq_self;
  rename_done = λ w q p h. rw text_eq_self;
  rename_failed = λ w q p e h. absurd (cc);
  remove_other = λ w q p h. other_path q p none w h;
  read_found = λ w p b h. ground arith;
  read_missing = λ w p h. ground arith;
  read_keeps = λ w q p. refl;
}

abbrev no_files : Files
no_files p = none

abbrev some_store : Store
some_store = record { path = 47 ∷ 115 ∷ [] }

abbrev progressed : ReplicationState
progressed = record zero_state {
  last_lsn = 42;
  events_failed = negsuc 0;
  active_node = node_local;
  last_flush_time = 7 * second;
}

round_trip :
    (load memory_files some_store (save memory_files some_store progressed no_files).1).0
    ≡ ok progressed
unfolding save load zero_state text_eq marshal unmarshal codes matches_tag fold_rune
    is_writable_time text_from time_from int64_from uint64_from fits_int64
round_trip = refl

-- A file that has been written by hand: the case of a name does not count, a member without a field
-- is skipped, the last of two members counts, and what is missing is left at its zero.
by_hand :
    unmarshal
      (λ t. [])
      ((codes "Last_LSN", json_number (pos 1))
        ∷ (codes "note", json_other)
        ∷ (codes "last_lsn", json_number (pos 2))
        ∷ (codes "lock_holder", json_null)
        ∷ [])
      zero_state
    ≡ ok (record zero_state { last_lsn = 2 })
unfolding unmarshal zero_state text_eq codes matches_tag fold_rune text_from uint64_from
by_hand = refl

-- A position that no uint64 holds is refused.
too_large :
    unmarshal (λ t. []) ((codes "last_lsn", json_number (pos (2 ^ 64))) ∷ []) zero_state
    ≡ err (codes "last_lsn")
unfolding unmarshal text_eq codes matches_tag fold_rune uint64_from
too_large = refl

save_atomic_example :
    Saved memory_files
      (λ w. w)
      memory_files-IsFileSystem
      some_store
      progressed
      no_files
      (save memory_files some_store progressed no_files)
save_atomic_example =
    save_atomic memory_files (λ w. w) memory_files-IsFileSystem some_store progressed no_files

progressed-Fits : Fits progressed
unfolding zero_state fits_int64 text_eq codes node_of node_string
progressed-Fits = record {
  last_lsn = refl;
  events_processed = refl;
  events_failed = refl;
  current_lag = refl;
  active_node = refl;
}

save_load_example :
    let r = save memory_files some_store progressed no_files in
    (r.0 ≡ none)
      × LoadsSaved memory_files (λ w. w) memory_files-IsFileSystem some_store progressed r.1
    ⊎ (r.0 ≢ none) × (r.1 some_store.path ≡ no_files some_store.path)
save_load_example =
    save_load memory_files (λ w. w) memory_files-IsFileSystem some_store progressed progressed-Fits
      no_files
