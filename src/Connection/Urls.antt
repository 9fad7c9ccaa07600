-- ===== src/Connection/Urls.antt =====
-- A reader of connection strings: the parts of a URL between its separators.
pub mod Query
pub mod Address
pub mod Fields
pub mod Target
use mathlib.Core.List.{append_assoc, append-nil}
use cloud_comp_project.Base.{
  ℕ, zero, suc, ◌+◌, ◌≤◌, ◌≡◌, ◌≢◌, refl, sym, ap, ◌∙◌, Bool, true, false, not, ◌||◌, ◌&&◌, ◌==◌,
  Bool-cases, inl, inr, Option, none, some, List, [], ◌∷◌, ◌++◌, map, Text, codes, text_eq,
  text_eq-eq, drop, length, length-append, arith, expect, expect-append, if◌then◌else◌,
}
use cloud_comp_project.Interfaces.{DbConfig}
use cloud_comp_project.Connection.Escape.{
  utf8, bytes, Mode, encode_user_password, encode_host, encode_path, encode_query_component,
  is_unreserved, is_sub_delim, stays, escape_byte, escape_bytes, escape,
}
use cloud_comp_project.Connection.Reading.{
  plain, read_part, IsReadable, escape-read, read_stop, literal,
}
use cloud_comp_project.Connection.{
  Url, encode_values, slashed, escaped_path, queried, url_string, conn_url, build_conn_string,
}

-- The separators behind the user or the password, the host, the path, and in the query.
abbrev pub user_ends : ℕ → Bool
user_ends c = c == 58 || c == 64

abbrev pub host_ends : ℕ → Bool
host_ends c = c == 47 || c == 63

abbrev pub path_ends : ℕ → Bool
path_ends c = c == 63

abbrev pub value_ends : ℕ → Bool
value_ends c = c == 61 || c == 38

pub user-IsReadable : IsReadable encode_user_password user_ends false
unfolding stays is_unreserved is_sub_delim
user-IsReadable = record {
  apart = λ c h. ground arith;
  no_percent = λ c h. ground arith;
  no_plus = λ c h. refl;
  percent_apart = refl;
  space = λ q. absurd q;
}

pub host-IsReadable : IsReadable encode_host host_ends false
unfolding stays is_unreserved is_sub_delim
host-IsReadable = record {
  apart = λ c h. ground arith;
  no_percent = λ c h. ground arith;
  no_plus = λ c h. refl;
  percent_apart = refl;
  space = λ q. absurd q;
}

pub path-IsReadable : IsReadable encode_path path_ends false
unfolding stays is_unreserved is_sub_delim
path-IsReadable = record {
  apart = λ c h. ground arith;
  no_percent = λ c h. ground arith;
  no_plus = λ c h. refl;
  percent_apart = refl;
  space = λ q. absurd q;
}

pub value-IsReadable : IsReadable encode_query_component value_ends true
unfolding stays is_unreserved
value-IsReadable = record {
  apart = λ c h. ground arith;
  no_percent = λ c h. ground arith;
  no_plus = λ c h. ground arith;
  percent_apart = refl;
  space = λ q. (refl, refl);
}

pub record Parts : Type 0 where
  pub user : List ℕ
  pub password : List ℕ
  pub host : List ℕ
  pub path : List ℕ
  pub query : List (List ℕ × List ℕ)

abbrev pub more_pairs : (Text → List (List ℕ × List ℕ)) → Text → List (List ℕ × List ℕ)
more_pairs read [] = []
more_pairs read (c ∷ s) = read s

-- The pairs of a query, at most `fuel`.
pub read_pairs : ℕ → Text → List (List ℕ × List ℕ)
read_pairs zero s = []
read_pairs (suc fuel) s =
    let (k, s1) = read_part value_ends true plain s in
    let (v, s2) = read_part value_ends true plain (drop 1 s1) in
    (k, v) ∷ more_pairs (read_pairs fuel) s2

abbrev pub read_query : Text → List (List ℕ × List ℕ)
read_query [] = []
read_query (c ∷ s) = read_pairs (suc (length s)) s

-- The path behind its slash.
abbrev pub read_path : Text → List ℕ × Text
read_path [] = ([], [])
read_path (c ∷ s) = if c == 47 then read_part path_ends false plain s else ([], c ∷ s)

-- what stands behind the scheme
pub read_parts : Text → Parts
unfolding read_pairs
read_parts s =
    let (user, s1) = read_part user_ends false plain s in
    let (password, s2) = read_part user_ends false plain (drop 1 s1) in
    let (host, s3) = read_part host_ends false plain (drop 1 s2) in
    let (path, s4) = read_path s3 in
    record { user = user; password = password; host = host; path = path; query = read_query s4 }

abbrev pub parts_of : Option Text → Option Parts
parts_of none = none
parts_of (some s) = some (read_parts s)

-- A URL of the scheme "postgres", in its bytes.
pub read_url : Text → Option Parts
unfolding codes read_parts
read_url s = parts_of (expect (codes "postgres://") s)
