-- ===== src/Connection/Urls/Fields.antt =====
-- The user, the password, the host and the path are read back.
use cloud_comp_project.Base.{
  ℕ, ◌≡◌, refl, sym, ap, ◌∙◌, subst, Bool, true, false, not, ◌==◌, Bool-cases, inl, inr, List, [],
  ◌∷◌, ◌++◌, map, Text, codes, text_eq, text_eq-eq, arith,
}
use cloud_comp_project.Connection.Escape.{
  utf8, bytes, encode_user_password, encode_host, encode_path, stays, escape_byte, escape_bytes,
  escape,
}
use cloud_comp_project.Connection.Reading.{plain, read_part, escape-read, read_stop}
use cloud_comp_project.Connection.{encode_values, slashed, escaped_path, queried}
use cloud_comp_project.Connection.Urls.{
  user_ends, host_ends, path_ends, user-IsReadable, host-IsReadable, path-IsReadable, read_path,
  read_parts,
}
use cloud_comp_project.Connection.Urls.Query.{both, query_read, query_ends, queried_values}

abbrev starts : List ℕ → Bool
starts [] = false
starts (b ∷ bs) = not (b == 47)

utf8-starts : (r : ℕ) → (r == 47) ≡ false → starts (utf8 r) ≡ true
unfolding utf8
utf8-starts r h = ground arith

append-starts : (bs cs : List ℕ) → starts bs ≡ true → starts (bs ++ cs) ≡ true
append-starts [] cs h = cc
append-starts (b ∷ bs) cs h = h

slashed_bytes :
    (bs : List ℕ)
    → starts bs ≡ true
    → slashed (escape_bytes encode_path bs) ≡ 47 ∷ escape_bytes encode_path bs
unfolding slashed escape_bytes escape_byte
slashed_bytes [] h = cc
slashed_bytes (b ∷ bs) h = elim (Bool-cases (stays encode_path b)) [
  | inl same ↦ let other : (b == 47) ≡ false = ground arith in rw (same, other) refl
  | inr other ↦ rw other refl
]

abbrev pub slash_first : Text → Bool
slash_first [] = false
slash_first (c ∷ s) = c == 47

slashed_path :
    (c : ℕ) (s : Text)
    → (c == 47) ≡ false
    → slashed (escape encode_path (c ∷ s)) ≡ 47 ∷ escape encode_path (c ∷ s)
unfolding bytes
slashed_path c s h =
    slashed_bytes (utf8 c ++ bytes s) (append-starts (utf8 c) (bytes s) (utf8-starts c h))

star_read :
    (s rest : Text)
    → s ≡ codes "*"
    → read_part path_ends false plain rest ≡ ([], rest)
    → read_path (slashed (codes "*") ++ rest) ≡ (bytes s, rest)
unfolding codes slashed bytes utf8 read_part
star_read s rest e ends = rw (e, ends) refl

path_read :
    (s rest : Text)
    → slash_first s ≡ false
    → (read_part path_ends false plain rest ≡ ([], rest)) × (read_path rest ≡ ([], rest))
    → read_path (slashed (escaped_path s) ++ rest) ≡ (bytes s, rest)
unfolding escaped_path text_eq slashed bytes codes escape_bytes
path_read [] rest h (ends, none_left) = none_left
path_read (c ∷ s) rest h (ends, none_left) = elim (Bool-cases (text_eq (c ∷ s) (codes "*"))) [
  | inl star ↦ rw star (star_read (c ∷ s) rest (text_eq-eq (c ∷ s) (codes "*") star) ends)
  | inr other ↦ rw other (
      ap (λ t. read_path (t ++ rest)) (slashed_path c s h)
      ∙ escape-read encode_path path_ends false path-IsReadable (c ∷ s) rest ends)
]

query_ends_host :
    (qs : List (Text × Text))
    → read_part host_ends false plain (queried (encode_values qs))
      ≡ ([], queried (encode_values qs))
unfolding queried encode_values read_part
query_ends_host [] = refl
query_ends_host (q ∷ qs) =
    subst (λ s. read_part host_ends false plain s ≡ ([], s)) (sym (queried_values q qs))
      (read_stop host_ends false 63 (encode_values (q ∷ qs)) refl)

-- What follows the host ends it: the slash of the path, or the query.
path_ends_host :
    (s : Text) (qs : List (Text × Text))
    → slash_first s ≡ false
    → let t = slashed (escaped_path s) ++ queried (encode_values qs) in
      read_part host_ends false plain t ≡ ([], t)
unfolding escaped_path text_eq codes bytes escape_bytes slashed read_part
path_ends_host [] qs h = query_ends_host qs
path_ends_host (c ∷ s) qs h = elim (Bool-cases (text_eq (c ∷ s) (codes "*"))) [
  | inl star ↦ rw star refl
  | inr other ↦ rw other (
      subst
        (λ p.
          read_part host_ends false plain (p ++ queried (encode_values qs))
          ≡ ([], p ++ queried (encode_values qs)))
        (sym (slashed_path c s h)) refl)
]

pub parts_read :
    (user password host path : Text) (qs : List (Text × Text))
    → slash_first path ≡ false
    → read_parts (
        escape encode_user_password user
        ++ (58
            ∷ (escape encode_user_password password
                ++ (64
                    ∷ (escape encode_host host
                        ++ (slashed (escaped_path path) ++ queried (encode_values qs)))))))
      ≡ record {
        user = bytes user;
        password = bytes password;
        host = bytes host;
        path = bytes path;
        query = map both qs;
      }
unfolding read_parts
parts_read user password host path qs h =
    let query = queried (encode_values qs) in
    let tail = slashed (escaped_path path) ++ query in
    let behind_user =
      escape encode_user_password password ++ (64 ∷ (escape encode_host host ++ tail)) in
    let user_read =
      escape-read encode_user_password user_ends false user-IsReadable user (58 ∷ behind_user)
        (read_stop user_ends false 58 behind_user refl) in
    let password_read =
      escape-read encode_user_password user_ends false user-IsReadable password
        (64 ∷ (escape encode_host host ++ tail))
        (read_stop user_ends false 64 (escape encode_host host ++ tail) refl) in
    let host_read =
      escape-read encode_host host_ends false host-IsReadable host tail
        (path_ends_host path qs h) in
    rw (user_read, password_read, host_read, path_read path query h (query_ends qs), query_read qs)
      refl
