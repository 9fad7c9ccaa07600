-- ===== src/Config.antt =====
-- state-sync-engine/internal/config/config.go: the configuration and its validation. What Viper
-- reads is a parameter of `load`.
pub mod Acceptance
use cloud_comp_project.Base.{
  ℕ, ◌+◌, ℤ, is_pos, Bool, true, false, not, ◌&&◌, ◌||◌, Option, none, some, List, [], ◌∷◌, ◌++◌,
  Text, codes, text_eq, trim_space, is_blank, is_empty, decimal, if◌then◌else◌,
}
use cloud_comp_project.Interfaces.{Result, ok, err, DbConfig}

pub record DatabaseConfig : Type 0 where
  pub host : Text
  pub port : ℤ
  pub database : Text
  pub user : Text
  pub password : Text
  pub ssl_mode : Text
  pub ssl_root_cert_path : Text
  pub replication_slot : Text

pub record ReplicationConfig : Type 0 where
  pub tables : List Text
  pub batch_size : ℤ
  pub flush_interval : ℤ
  pub max_lag_seconds : ℤ

pub record LockConfig : Type 0 where
  pub gcs_bucket : Text
  pub lock_key : Text
  pub ttl : ℤ
  pub renew_interval : ℤ

pub record HealthConfig : Type 0 where
  pub status_port : ℤ
  pub metrics_port : ℤ
  pub check_interval : ℤ

pub record FailoverConfig : Type 0 where
  pub timeout : ℤ
  pub consecutive_failures : ℤ

pub record Config : Type 0 where
  pub local_database : DatabaseConfig
  pub cloud_database : DatabaseConfig
  pub replication : ReplicationConfig
  pub distributed_lock : LockConfig
  pub health : HealthConfig
  pub failover : FailoverConfig

-- `errs = append(errs, message)` under a condition
pub complain : Bool → Text → List Text → List Text
complain wrong message errs = if wrong then errs ++ message ∷ [] else errs

-- the closure `validateDatabase`, which appends to `errs`
pub validate_database : Text → DatabaseConfig → Bool → List Text → List Text
unfolding complain codes
validate_database prefix db require_slot errs =
    complain (require_slot && is_blank db.replication_slot)
      (prefix ++ codes ".replication_slot is required")
      (complain (is_blank db.ssl_mode) (prefix ++ codes ".ssl_mode is required") (
        complain (is_blank db.password) (prefix ++ codes ".password is required") (
          complain (is_blank db.user) (prefix ++ codes ".user is required") (
            complain (is_blank db.database) (prefix ++ codes ".database is required") (
              complain (not (is_pos db.port)) (prefix ++ codes ".port must be greater than 0")
                (complain (is_blank db.host) (prefix ++ codes ".host is required") errs))))))

-- the loop over the tables, from the index `i` on
pub validate_tables : ℕ → List Text → List Text → List Text
unfolding complain codes
validate_tables i [] errs = errs
validate_tables i (table ∷ tables) errs = validate_tables (i + 1) tables (
    complain (is_blank table)
      (codes "replication.tables[" ++ decimal i ++ codes "] must not be empty") errs)

pub validate_replication : List Text → List Text → List Text
unfolding validate_tables codes
validate_replication [] errs =
    errs ++ codes "replication.tables must include at least one table" ∷ []
validate_replication (t ∷ ts) errs = validate_tables 0 (t ∷ ts) errs

-- The three tests of the cloud SSL mode.
pub is_secure_mode : Text → Bool
unfolding codes text_eq
is_secure_mode mode =
    text_eq mode (codes "require")
    || text_eq mode (codes "verify-ca")
    || text_eq mode (codes "verify-full")

-- `errs` at the end of `Validate`
pub validation_errors : Config → List Text
unfolding validate_database validate_replication is_secure_mode complain codes
validation_errors c = validate_replication c.replication.tables (
    complain (is_blank c.cloud_database.ssl_root_cert_path)
      (codes "cloud_database.ssl_root_cert_path is required for TLS certificate validation")
      (complain (not (is_secure_mode (trim_space c.cloud_database.ssl_mode)))
        (codes "cloud_database.ssl_mode must be one of: require, verify-ca, verify-full")
        (validate_database (codes "cloud_database") c.cloud_database false
          (validate_database (codes "local_database") c.local_database true []))))

-- `Validate`: the errors that it joins, if there are any.
unfoldable pub validate : Config → Option (List Text)
unfolding validation_errors
validate c = let errs = validation_errors c in if is_empty errs then none else some errs

-- The errors of `Load`: the file is missing, cannot be read or does not fit the structure, or its
-- content is not valid.
pub data LoadError (E : Type 0) : Type 0 where
  file_not_found reading_failed unmarshal_failed : E → LoadError E
  validation_failed : List Text → LoadError E

-- `Load`, for what Viper makes of the file and the environment
unfoldable pub load : {E : Type 0} → Result (LoadError E) Config → Result (LoadError E) Config
unfolding validate
load (err e) = err e
load (ok cfg) = elim (validate cfg) [ none ↦ ok cfg | some errs ↦ err (validation_failed errs) ]

-- `toDBConfig`, which the engine and the failover manager both have
unfoldable pub to_db_config : DatabaseConfig → DbConfig
to_db_config db = record {
  host = db.host;
  port = db.port;
  database = db.database;
  user = db.user;
  password = db.password;
  ssl_mode = db.ssl_mode;
  ssl_root_cert_path = db.ssl_root_cert_path;
  replication_slot = db.replication_slot;
}
