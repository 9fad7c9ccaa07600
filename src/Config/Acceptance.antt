-- ===== src/Config/Acceptance.antt =====
-- Which configurations `Validate` accepts.
use cloud_comp_project.Base.{
  ℕ, ◌+◌, ◌≡◌, ◌≢◌, ◌↔◌, ◌⊎◌, inl, inr, refl, Bool, true, false, not, ◌&&◌, ◌||◌, none, some, List,
  [], ◌∷◌, ◌++◌, Text, codes, text_eq_iff, trim_space, is_blank, is_empty, is_pos, if◌then◌else◌,
}
use cloud_comp_project.Config.{
  DatabaseConfig, Config, complain, validate_database, validate_tables, validate_replication,
  is_secure_mode, validation_errors, validate,
}

-- A database's part is complete. (The slot is asked for in the local database only.)
abbrev pub IsComplete : Bool → DatabaseConfig → Type 0
IsComplete with_slot db =
    (is_blank db.host ≡ false)
    × (is_pos db.port ≡ true)
    × (is_blank db.database ≡ false)
    × (is_blank db.user ≡ false)
    × (is_blank db.password ≡ false)
    × (is_blank db.ssl_mode ≡ false)
    × ((with_slot && is_blank db.replication_slot) ≡ false)

abbrev pub AreNamed : List Text → Type 0
AreNamed [] = Unit
AreNamed (t ∷ ts) = (is_blank t ≡ false) × AreNamed ts

abbrev pub IsSecure : Text → Type 0
IsSecure mode = (mode ≡ codes "require") ⊎ (mode ≡ codes "verify-ca") ⊎ (mode ≡ codes "verify-full")

abbrev pub IsAcceptable : Config → Type 0
IsAcceptable c =
    IsComplete true c.local_database
    × IsComplete false c.cloud_database
    × IsSecure (trim_space c.cloud_database.ssl_mode)
    × (is_blank c.cloud_database.ssl_root_cert_path ≡ false)
    × (c.replication.tables ≢ [])
    × AreNamed c.replication.tables

append-cons : (xs : List Text) (y : Text) → xs ++ y ∷ [] ≢ []
append-cons [] y h = cc
append-cons (x ∷ xs) y h = cc

complain_iff :
    (b : Bool) (m : Text) (errs : List Text)
    → (complain b m errs ≡ []) ↔ ((b ≡ false) × (errs ≡ []))
unfolding complain
complain_iff true m errs = (λ h. absurd (append-cons errs m h), λ h. cc)
complain_iff false m errs = (λ h. (refl, h), λ h. h.1)

not_iff : (b : Bool) → (not b ≡ false) ↔ (b ≡ true)
not_iff true = (λ h. refl, λ h. refl)
not_iff false = (λ h. cc, λ h. cc)

database_iff :
    (prefix : Text) (db : DatabaseConfig) (with_slot : Bool) (errs : List Text)
    → (validate_database prefix db with_slot errs ≡ []) ↔ (IsComplete with_slot db × (errs ≡ []))
unfolding validate_database
database_iff prefix db with_slot errs = (
  λ h.
      let (slot, h1) = (complain_iff _ _ _).0 h in
      let (mode, h2) = (complain_iff _ _ _).0 h1 in
      let (password, h3) = (complain_iff _ _ _).0 h2 in
      let (user, h4) = (complain_iff _ _ _).0 h3 in
      let (database, h5) = (complain_iff _ _ _).0 h4 in
      let (port, h6) = (complain_iff _ _ _).0 h5 in
      let (host, h7) = (complain_iff _ _ _).0 h6 in
      ((host, (not_iff _).0 port, database, user, password, mode, slot), h7),
  λ h.
      let ((host, port, database, user, password, mode, slot), h7) = h in
      let h6 = (complain_iff _ _ _).1 (host, h7) in
      let h5 = (complain_iff _ _ _).1 ((not_iff _).1 port, h6) in
      let h4 = (complain_iff _ _ _).1 (database, h5) in
      let h3 = (complain_iff _ _ _).1 (user, h4) in
      let h2 = (complain_iff _ _ _).1 (password, h3) in
      let h1 = (complain_iff _ _ _).1 (mode, h2) in (complain_iff _ _ _).1 (slot, h1),
)

tables_iff :
    (i : ℕ) (ts errs : List Text) → (validate_tables i ts errs ≡ []) ↔ (AreNamed ts × (errs ≡ []))
unfolding validate_tables
tables_iff i [] errs = (λ h. (tt, h), λ h. h.1)
tables_iff i (t ∷ ts) errs = (
  λ h.
      let (named, h1) = (tables_iff (i + 1) ts _).0 h in
      let (first, h2) = (complain_iff _ _ _).0 h1 in ((first, named), h2),
  λ h.
      let ((first, named), h2) = h in
      (tables_iff (i + 1) ts _).1 (named, (complain_iff _ _ _).1 (first, h2)),
)

replication_iff :
    (ts errs : List Text)
    → (validate_replication ts errs ≡ []) ↔ ((ts ≢ []) × AreNamed ts × (errs ≡ []))
unfolding validate_replication
replication_iff [] errs = (λ h. absurd (append-cons errs _ h), λ h. absurd (h.0 refl))
replication_iff (t ∷ ts) errs = (
  λ h. let (named, h1) = (tables_iff 0 (t ∷ ts) errs).0 h in ((λ q. cc), named, h1),
  λ h. (tables_iff 0 (t ∷ ts) errs).1 (h.1, h.2),
)

or_iff : (a b c : Bool) → (not (a || b || c) ≡ false) ↔ ((a ≡ true) ⊎ (b ≡ true) ⊎ (c ≡ true))
or_iff true b c = (λ h. inl refl, λ h. refl)
or_iff false true c = (λ h. inr (inl refl), λ h. refl)
or_iff false false true = (λ h. inr (inr refl), λ h. refl)
or_iff false false false =
    (λ h. cc, λ h. elim h [ inl x ↦ cc | inr (inl x) ↦ cc | inr (inr x) ↦ cc ])

IsSecure-iff : (mode : Text) → (not (is_secure_mode mode) ≡ false) ↔ IsSecure mode
unfolding is_secure_mode
IsSecure-iff mode = (
  λ h. elim ((or_iff _ _ _).0 h) [
    | inl x ↦ inl ((text_eq_iff mode _).0 x)
    | inr (inl x) ↦ inr (inl ((text_eq_iff mode _).0 x))
    | inr (inr x) ↦ inr (inr ((text_eq_iff mode _).0 x))
  ],
  λ h. (or_iff _ _ _).1 (elim h [
    | inl x ↦ inl ((text_eq_iff mode _).1 x)
    | inr (inl x) ↦ inr (inl ((text_eq_iff mode _).1 x))
    | inr (inr x) ↦ inr (inr ((text_eq_iff mode _).1 x))
  ]),
)

-- The chain of the checks, for any messages.
checks_iff :
    (c : Config) (p q m n : Text)
    → (validate_replication c.replication.tables (
          complain (is_blank c.cloud_database.ssl_root_cert_path) m (
            complain (not (is_secure_mode (trim_space c.cloud_database.ssl_mode))) n (
              validate_database p c.cloud_database false
                (validate_database q c.local_database true []))))
        ≡ [])
      ↔ IsAcceptable c
checks_iff c p q m n = (
  λ h.
      let (some_table, named, h1) = (replication_iff _ _).0 h in
      let (root, h2) = (complain_iff _ m _).0 h1 in
      let (mode, h3) = (complain_iff _ n _).0 h2 in
      let (cloud, h4) = (database_iff p c.cloud_database false _).0 h3 in
      let (local, h5) = (database_iff q c.local_database true []).0 h4 in
      (local, cloud, (IsSecure-iff _).0 mode, root, some_table, named),
  λ h.
      let (local, cloud, mode, root, some_table, named) = h in
      let h4 = (database_iff q c.local_database true []).1 (local, refl) in
      let h3 = (database_iff p c.cloud_database false _).1 (cloud, h4) in
      let h2 = (complain_iff _ n _).1 ((IsSecure-iff _).1 mode, h3) in
      let h1 = (complain_iff _ m _).1 (root, h2) in (replication_iff _ _).1 (some_table, named, h1),
)

errors_iff : (c : Config) → (validation_errors c ≡ []) ↔ IsAcceptable c
unfolding validation_errors
errors_iff c =
    checks_iff c (codes "cloud_database") (codes "local_database")
      (codes "cloud_database.ssl_root_cert_path is required for TLS certificate validation")
      (codes "cloud_database.ssl_mode must be one of: require, verify-ca, verify-full")

no_errors : (errs : List Text) → ((if is_empty errs then none else some errs) ≡ none) ↔ (errs ≡ [])
no_errors [] = (λ h. refl, λ h. refl)
no_errors (e ∷ errs) = (λ h. cc, λ h. cc)

-- Validate returns no error exactly for the configurations whose databases are complete, whose
-- cloud database is reached by one of the three secure SSL modes with a root certificate, and that
-- name at least one table, each with a name that is not blank.
pub validate_iff : (c : Config) → (validate c ≡ none) ↔ IsAcceptable c
unfolding validate
validate_iff c =
    (λ h. (errors_iff c).0 ((no_errors _).0 h), λ h. (no_errors _).1 ((errors_iff c).1 h))
