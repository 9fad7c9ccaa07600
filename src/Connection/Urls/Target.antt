-- ===== src/Connection/Urls/Target.antt =====
-- A connection string names the target of the configuration.
use mathlib.Core.List.{map-append}
use cloud_comp_project.Base.{
  ℕ, ◌≡◌, refl, ap, ◌∙◌, Bool, true, false, Bool-cases, inl, inr, Option, none, some, pos, is_blank,
  if◌then◌else◌, List, [], ◌∷◌, ◌++◌, map, Text, codes, expect,
}
use cloud_comp_project.Interfaces.{DbConfig}
use cloud_comp_project.Connection.Escape.{bytes}
use cloud_comp_project.Connection.{
  url_string, conn_url, build_conn_string, coordinator_conn_string, unless_blank,
}
use cloud_comp_project.Connection.Urls.{Parts, read_url}
use cloud_comp_project.Connection.Urls.Address.{HasNoColon, read_address, address_read}
use cloud_comp_project.Connection.Urls.Query.{both}
use cloud_comp_project.Connection.Urls.Fields.{slash_first, parts_read}

-- What PostgreSQL's libraries take from a connection string, in the bytes of UTF-8.
pub record Target : Type 0 where
  pub user : List ℕ
  pub password : List ℕ
  pub host : List ℕ
  pub port : ℕ
  pub database : List ℕ
  pub settings : List (List ℕ × List ℕ)

abbrev pub with_address : Parts → Option (List ℕ × ℕ) → Option Target
with_address p none = none
with_address p (some (host, port)) = some (record {
  user = p.user;
  password = p.password;
  host = host;
  port = port;
  database = p.path;
  settings = p.query;
})

abbrev pub target_of : Option Parts → Option Target
target_of none = none
target_of (some p) = with_address p (read_address p.host)

pub read_target : Text → Option Target
unfolding read_url
read_target s = target_of (read_url s)

-- A setting, unless its value is left blank.
abbrev pub setting : Text → Text → List (List ℕ × List ℕ)
setting name value = if is_blank value then [] else (bytes name, bytes value) ∷ []

-- The target that a configuration with the port `n` names.
pub target : DbConfig → ℕ → Bool → Target
unfolding codes
target config n replication_mode = record {
  user = bytes config.user;
  password = bytes config.password;
  host = bytes config.host;
  port = n;
  database = bytes config.database;
  settings =
      (if replication_mode
        then (bytes (codes "replication"), bytes (codes "database")) ∷ []
        else [])
      ++ setting (codes "sslmode") config.ssl_mode
      ++ setting (codes "sslrootcert") config.ssl_root_cert_path;
}

both-unless_blank : (k v : Text) → map both (unless_blank k v) ≡ setting k v
both-unless_blank k v = elim (Bool-cases (is_blank v)) [
  | inl blank ↦ rw blank refl
  | inr given ↦ rw given refl
]

optional_settings :
    (config : DbConfig) (k l : Text)
    → map both (unless_blank k config.ssl_mode ++ unless_blank l config.ssl_root_cert_path)
      ≡ setting k config.ssl_mode ++ setting l config.ssl_root_cert_path
optional_settings config k l =
    map-append both (unless_blank k config.ssl_mode) (unless_blank l config.ssl_root_cert_path)
    ∙ ap (λ x. x ++ map both (unless_blank l config.ssl_root_cert_path))
        (both-unless_blank k config.ssl_mode)
    ∙ ap (λ x. setting k config.ssl_mode ++ x) (both-unless_blank l config.ssl_root_cert_path)

query_settings :
    (config : DbConfig) (n : ℕ) (replication_mode : Bool)
    → map both (conn_url config replication_mode).query
      ≡ (target config n replication_mode).settings
unfolding conn_url target
query_settings config n true =
    ap (λ l. (bytes (codes "replication"), bytes (codes "database")) ∷ l)
      (optional_settings config (codes "sslmode") (codes "sslrootcert"))
query_settings config n false = optional_settings config (codes "sslmode") (codes "sslrootcert")

-- The parts of a connection string with a query.
url_parts : DbConfig → Bool → List (List ℕ × List ℕ) → Parts
url_parts config replication_mode query = record {
  user = bytes config.user;
  password = bytes config.password;
  host = bytes (conn_url config replication_mode).host;
  path = bytes config.database;
  query = query;
}

url_read :
    (config : DbConfig) (replication_mode : Bool)
    → slash_first config.database ≡ false
    → let u = conn_url config replication_mode in
      read_url (url_string u) ≡ some (url_parts config replication_mode (map both u.query))
unfolding url_parts read_url url_string conn_url codes expect
url_read config replication_mode h =
    let u = conn_url config replication_mode in
    ap some (parts_read config.user config.password u.host config.database u.query h)

host_read :
    (config : DbConfig) (n : ℕ) (replication_mode : Bool)
    → HasNoColon config.host
    → config.port ≡ pos n
    → read_address (bytes (conn_url config replication_mode).host) ≡ some (bytes config.host, n)
unfolding conn_url
host_read config n replication_mode plain_host p = rw p (address_read config.host n plain_host)

target_read :
    (config : DbConfig) (n : ℕ) (replication_mode : Bool)
    → slash_first config.database ≡ false
    → HasNoColon config.host
    → config.port ≡ pos n
    → read_target (build_conn_string config replication_mode)
      ≡ some (target config n replication_mode)
unfolding url_parts read_target build_conn_string target
target_read config n replication_mode h plain_host p =
    let u = conn_url config replication_mode in
    let parts = url_parts config replication_mode in
    ap target_of (url_read config replication_mode h)
    ∙ ap (λ q. with_address (parts q) (read_address (bytes u.host)))
        (query_settings config n replication_mode)
    ∙ ap (with_address (parts (target config n replication_mode).settings))
        (host_read config n replication_mode plain_host p)

-- If the name of the database does not start with a slash, the host has no colon, and the port is
-- not negative, a reader of connection strings reads from that of either package exactly the user,
-- the password, the host, the port, the name of the database and the settings of the
-- configuration, whatever characters they have; a setting that is left blank is not there.
pub conn_string_read :
    (config : DbConfig) (n : ℕ)
    → slash_first config.database ≡ false
    → HasNoColon config.host
    → config.port ≡ pos n
    → ((replication_mode : Bool)
        → read_target (build_conn_string config replication_mode)
          ≡ some (target config n replication_mode))
      × (read_target (coordinator_conn_string config) ≡ some (target config n false))
unfolding coordinator_conn_string build_conn_string
conn_string_read config n h plain_host p =
    let read = λ (replication_mode : Bool). target_read config n replication_mode h plain_host p in
    (read, read false)
