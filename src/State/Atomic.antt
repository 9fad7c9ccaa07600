-- ===== src/State/Atomic.antt =====
-- Saving replaces the state file in one step, and loading reads what was saved.
use cloud_comp_project.Base.{
  ◌≡◌, ◌≢◌, ◌⊎◌, inl, inr, refl, ◌∙◌, Option, none, some, ◌∷◌, ◌++◌, Text, codes, length,
  length-append, arith, ap,
}
use cloud_comp_project.Interfaces.{ok, err}
use cloud_comp_project.Json.{Members}
use cloud_comp_project.State.{ReplicationState, members, marshal, zero_state}
use cloud_comp_project.State.Store.{
  FileBody, object, ReadFile, file_body, not_exist, read_error, FileSystem, StoreError,
  reading_file, Store, tmp_file, after_rename, after_write, after_marshal, after_mkdir, save, load,
  loaded, read_back,
}
use cloud_comp_project.State.Encoding.{Fits, members_read}

-- The documented behaviour of the file system: `content` is what a path's file holds, if there is
-- one. A rename replaces the target in one step or does nothing; a request on one path leaves the
-- other paths alone; a write that fails may leave anything at its own path.
pub record IsFileSystem {W E : Type 0} (fs : FileSystem W E) (content : W → Text → Option FileBody)
    : Type 0 where
  pub mkdir_keeps : (w : W) (d p : Text) → content (fs.mkdir_all d w).1 p ≡ content w p
  pub write_other :
      (w : W) (q p : Text) (b : FileBody) → p ≢ q → content (fs.write_file q b w).1 p ≡ content w p
  pub write_done :
      (w : W) (q : Text) (b : FileBody)
      → (fs.write_file q b w).0 ≡ none
      → content (fs.write_file q b w).1 q ≡ some b
  pub rename_done :
      (w : W) (q p : Text)
      → (fs.rename q p w).0 ≡ none
      → content (fs.rename q p w).1 p ≡ content w q
  pub rename_failed :
      (w : W) (q p : Text) (e : E)
      → (fs.rename q p w).0 ≡ some e
      → content (fs.rename q p w).1 p ≡ content w p
  pub remove_other : (w : W) (q p : Text) → p ≢ q → content (fs.remove q w).1 p ≡ content w p
  pub read_found :
      (w : W) (p : Text) (b : FileBody) → (fs.read_file p w).0 ≡ file_body b → content w p ≡ some b
  pub read_missing : (w : W) (p : Text) → (fs.read_file p w).0 ≡ not_exist → content w p ≡ none
  pub read_keeps : (w : W) (q p : Text) → content (fs.read_file q w).1 p ≡ content w p

append_ne : (s t : Text) → s ≢ s ++ 46 ∷ t
append_ne s t p = absurd (omega (arith, ap (λ (x : Text). length x) p, length-append s (46 ∷ t)))

path-ne-tmp_file : (s : Store) → s.path ≢ tmp_file s
unfolding tmp_file codes
path-ne-tmp_file s = append_ne s.path _

module _ {W E : Type 0} (fs : FileSystem W E) (content : W → Text → Option FileBody)
    (files : IsFileSystem fs content) (s : Store) (rs : ReplicationState) where
  -- A load gives this state, or an error of the file system.
  abbrev pub LoadsSaved : W → Type 0
  LoadsSaved w = ((load fs s w).0 ≡ ok rs) ⊎ ((e : E) × ((load fs s w).0 ≡ err (reading_file e)))

  -- What the state file holds after an attempt to save, by the error returned.
  abbrev pub Saved : W → Option (StoreError E) × W → Type 0
  Saved w r =
      ((r.0 ≡ none) × (content r.1 s.path ≡ some (object (members rs))))
      ⊎ ((r.0 ≢ none) × (content r.1 s.path ≡ content w s.path))

  renamed :
      (e : Option E) (w w1 : W)
      → (e ≡ none → content w1 s.path ≡ some (object (members rs)))
      → (e ≢ none → content w1 s.path ≡ content w s.path)
      → Saved w (after_rename fs s e w1)
  unfolding after_rename
  renamed none w w1 done failed = inl (refl, done refl)
  renamed (some e) w w1 done failed =
      inr (
        (λ p. cc),
        files.remove_other w1 (tmp_file s) s.path (path-ne-tmp_file s) ∙ failed (λ p. cc),
      )

  written :
      (e : Option E) (w w1 : W)
      → (e ≡ none → content w1 (tmp_file s) ≡ some (object (members rs)))
      → content w1 s.path ≡ content w s.path
      → Saved w (after_write fs s e w1)
  unfolding after_write
  written (some e) w w1 done same = inr ((λ p. cc), same)
  written none w w1 done same =
      renamed (fs.rename (tmp_file s) s.path w1).0 w (fs.rename (tmp_file s) s.path w1).1
        (λ p. files.rename_done w1 (tmp_file s) s.path p ∙ done refl)
        (λ p. not_renamed (fs.rename (tmp_file s) s.path w1).0 refl p ∙ same)
    where
      not_renamed :
          (e : Option E)
          → (fs.rename (tmp_file s) s.path w1).0 ≡ e
          → e ≢ none
          → content (fs.rename (tmp_file s) s.path w1).1 s.path ≡ content w1 s.path
      not_renamed none q p = absurd (p refl)
      not_renamed (some e) q p = files.rename_failed w1 (tmp_file s) s.path e q

  marshaled :
      (o : Option Members) (w w1 : W)
      → ((ms : Members) → o ≡ some ms → ms ≡ members rs)
      → content w1 s.path ≡ content w s.path
      → Saved w (after_marshal fs s o w1)
  unfolding after_marshal
  marshaled none w w1 all same = inr ((λ p. cc), same)
  marshaled (some ms) w w1 all same =
      let (e, w2) = fs.write_file (tmp_file s) (object ms) w1 in
      written e w w2
        (λ p.
          files.write_done w1 (tmp_file s) (object ms) p ∙ ap (λ x. some (object x)) (all ms refl))
        (files.write_other w1 (tmp_file s) s.path (object ms) (path-ne-tmp_file s) ∙ same)

  marshal-some : (ms : Members) → marshal rs ≡ some ms → ms ≡ members rs
  unfolding marshal
  marshal-some ms h = ground arith

  made :
      (e : Option E) (w w1 : W)
      → content w1 s.path ≡ content w s.path
      → Saved w (after_mkdir fs s rs e w1)
  unfolding after_mkdir
  made (some e) w w1 same = inr ((λ p. cc), same)
  made none w w1 same = marshaled (marshal rs) w w1 marshal-some same

  -- On a file system with atomic renames, after `Save` the state file holds the JSON object of the
  -- state that was given if no error was returned, and what it held before if one was: never a part of it.
  pub save_atomic : (w : W) → Saved w (save fs s rs w)
  unfolding save
  save_atomic w =
      let (e, w1) = fs.mkdir_all (fs.dir s.path) w in
      made e w w1 (files.mkdir_keeps w (fs.dir s.path) s.path)

  loads : Fits rs → (w : W) → content w s.path ≡ some (object (members rs)) → LoadsSaved w
  unfolding load
  loads fits w c = reads (fs.read_file s.path w).0 refl
    where
      reads :
          (r : ReadFile E)
          → (fs.read_file s.path w).0 ≡ r
          → (loaded fs r ≡ ok rs) ⊎ ((e : E) × (loaded fs r ≡ err (reading_file e)))
      reads (file_body b) q =
          let same : b ≡ object (members rs) = cc (c, files.read_found w s.path b q) in
          let read = members_read fs.time_text rs fits zero_state in
          inl (rw same (unfold loaded read_back in ap (read_back fs) read))
      reads not_exist q = absurd (unfold loaded in cc (files.read_missing w s.path q))
      reads (read_error e) q = inr (e, unfold loaded in refl)

  -- On such a file system, if the numbers of the state are of their types: when `Save` returns no
  -- error, a `Load` that follows gives back the same state, all of its fields, unless reading the
  -- file fails; when it returns one, the file is as it was.
  pub save_load :
      Fits rs
      → (w : W)
      → ((save fs s rs w).0 ≡ none) × LoadsSaved (save fs s rs w).1
        ⊎ ((save fs s rs w).0 ≢ none) × (content (save fs s rs w).1 s.path ≡ content w s.path)
  save_load fits w = elim (save_atomic w) [
    | inl (done, held) ↦ inl (done, loads fits (save fs s rs w).1 held)
    | inr kept ↦ inr kept
  ]
