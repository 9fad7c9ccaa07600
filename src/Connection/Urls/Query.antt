-- ===== src/Connection/Urls/Query.antt =====
-- The query of a connection string is read back.
use mathlib.Core.List.{append-nil}
use cloud_comp_project.Base.{
  ℕ, zero, suc, ◌≤◌, ◌≡◌, refl, sym, ap, ◌∙◌, subst, true, false, List, [], ◌∷◌, ◌++◌, map, Text,
  codes, length, length-append, arith,
}
use cloud_comp_project.Connection.Escape.{bytes, encode_query_component, escape}
use cloud_comp_project.Connection.Reading.{plain, read_part, escape-read, read_stop}
use cloud_comp_project.Connection.{encode_values, queried}
use cloud_comp_project.Connection.Urls.{
  path_ends, value_ends, value-IsReadable, more_pairs, read_pairs, read_query, read_path,
}

abbrev pub both : Text × Text → List ℕ × List ℕ
both (k, v) = (bytes k, bytes v)

-- one pair, whose value ends with the text or before the next pair
pair_read :
    (k v rest : Text) (fuel : ℕ)
    → read_part value_ends true plain rest ≡ ([], rest)
    → read_pairs
        (suc fuel)
        (escape encode_query_component k ++ (61 ∷ (escape encode_query_component v ++ rest)))
      ≡ (bytes k, bytes v) ∷ more_pairs (read_pairs fuel) rest
unfolding read_pairs
pair_read k v rest fuel ends =
    let tail = escape encode_query_component v ++ rest in
    let name =
      escape-read encode_query_component value_ends true value-IsReadable k (61 ∷ tail)
        (read_stop value_ends true 61 tail refl) in
    let value = escape-read encode_query_component value_ends true value-IsReadable v rest ends in
    rw (read_pairs, name, value) refl

no_rest : read_part value_ends true plain [] ≡ ([], [])
unfolding read_part
no_rest = refl

pairs_read :
    (q : Text × Text) (qs : List (Text × Text)) (fuel : ℕ)
    → length qs ≤ fuel
    → read_pairs (suc fuel) (encode_values (q ∷ qs)) ≡ map both (q ∷ qs)
unfolding encode_values codes
pairs_read (k, v) [] fuel le =
    ap (λ t. read_pairs (suc fuel) (escape encode_query_component k ++ (61 ∷ t)))
      (sym (append-nil (escape encode_query_component v)))
    ∙ pair_read k v [] fuel no_rest
pairs_read (k, v) (q ∷ qs) zero le = absurd (omega arith)
pairs_read (k, v) (q ∷ qs) (suc fuel) le =
    pair_read k v (38 ∷ encode_values (q ∷ qs)) (suc fuel)
      (read_stop value_ends true 38 (encode_values (q ∷ qs)) refl)
    ∙ ap (λ l. (bytes k, bytes v) ∷ l) (pairs_read q qs fuel (omega arith))

-- Each pair has an equals sign, so a query that is not empty has more characters than pairs.
long_enough :
    (q : Text × Text) (qs : List (Text × Text)) → length qs ≤ length (encode_values (q ∷ qs))
unfolding encode_values codes
long_enough (k, v) [] = omega arith
long_enough (k, v) (q ∷ qs) = omega (
  arith,
  long_enough q qs,
  length-append (escape encode_query_component k)
      (61 ∷ (escape encode_query_component v ++ (38 ∷ encode_values (q ∷ qs)))),
  length-append (escape encode_query_component v) (38 ∷ encode_values (q ∷ qs)),
)

queried_as : (t : Text) (c : ℕ) (u : Text) → queried (t ++ (c ∷ u)) ≡ 63 ∷ (t ++ (c ∷ u))
unfolding queried codes
queried_as [] c u = refl
queried_as (d ∷ t) c u = refl

pub queried_values :
    (q : Text × Text) (qs : List (Text × Text))
    → queried (encode_values (q ∷ qs)) ≡ 63 ∷ encode_values (q ∷ qs)
unfolding encode_values codes
queried_values (k, v) [] = queried_as (escape encode_query_component k) 61 _
queried_values (k, v) (q ∷ qs) = queried_as (escape encode_query_component k) 61 _

pub query_read : (qs : List (Text × Text)) → read_query (queried (encode_values qs)) ≡ map both qs
unfolding queried encode_values
query_read [] = refl
query_read (q ∷ qs) =
    ap read_query (queried_values q qs)
    ∙ pairs_read q qs (length (encode_values (q ∷ qs))) (long_enough q qs)

-- What follows the path ends it.
pub query_ends :
    (qs : List (Text × Text))
    → let s = queried (encode_values qs) in
      (read_part path_ends false plain s ≡ ([], s)) × (read_path s ≡ ([], s))
unfolding queried encode_values read_part
query_ends [] = (refl, refl)
query_ends (q ∷ qs) =
    subst (λ s. (read_part path_ends false plain s ≡ ([], s)) × (read_path s ≡ ([], s)))
      (sym (queried_values q qs)) (read_stop path_ends false 63 (encode_values (q ∷ qs)) refl, refl)
