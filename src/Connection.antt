-- ===== src/Connection.antt =====
-- state-sync-engine/internal/replication/subscriber.go and
-- state-sync-engine/internal/coordinator/coordinator.go: the connection strings.
pub mod Escape
pub mod Reading
pub mod Urls
use cloud_comp_project.Base.{
  ℕ, suc, Bool, true, false, List, [], ◌∷◌, ◌++◌, ℤ, pos, negsuc, Text, codes, decimal, text_eq,
  is_blank, is_empty, if◌then◌else◌, ◌==◌,
}
use cloud_comp_project.Interfaces.{DbConfig}
use cloud_comp_project.Connection.Escape.{
  encode_user_password, encode_host, encode_path, encode_query_component, escape,
}

-- `fmt.Sprintf("%d", n)`
pub decimal_int : ℤ → Text
unfolding decimal codes
decimal_int (pos n) = decimal n
decimal_int (negsuc n) = codes "-" ++ decimal (suc n)

-- What the code sets of `url.URL`. The query is `url.Values`, with its keys in order.
pub record Url : Type 0 where
  pub scheme : Text
  pub user : Text
  pub password : Text
  pub host : Text
  pub path : Text
  pub query : List (Text × Text)

-- `Values.Encode`
pub encode_values : List (Text × Text) → Text
unfolding codes
encode_values [] = []
encode_values ((k, v) ∷ []) =
    escape encode_query_component k ++ (codes "=" ++ escape encode_query_component v)
encode_values ((k, v) ∷ q ∷ values) =
    escape encode_query_component k
    ++ (codes "=" ++ (escape encode_query_component v ++ (codes "&" ++ encode_values (q ∷ values))))

-- the path, behind a slash if it does not start with one
pub slashed : Text → Text
slashed [] = []
slashed (c ∷ s) = if c == 47 then c ∷ s else 47 ∷ c ∷ s

-- `EscapedPath`: the path "*" stays
pub escaped_path : Text → Text
unfolding text_eq codes
escaped_path s = if text_eq s (codes "*") then codes "*" else escape encode_path s

pub queried : Text → Text
unfolding codes
queried [] = []
queried (c ∷ s) = codes "?" ++ (c ∷ s)

-- `URL.String`, for a URL with a scheme, a user with a password, and a host.
unfoldable pub url_string : Url → Text
unfolding codes slashed escaped_path queried encode_values
url_string u =
    u.scheme
    ++ (codes "://"
        ++ (escape encode_user_password u.user
            ++ (codes ":"
                ++ (escape encode_user_password u.password
                    ++ (codes "@"
                        ++ (escape encode_host u.host
                            ++ (slashed (escaped_path u.path)
                                ++ queried (encode_values u.query))))))))

-- `if strings.TrimSpace(v) != "" { query.Set(k, v) }`, for the greatest key so far
abbrev pub unless_blank : Text → Text → List (Text × Text)
unless_blank k v = if is_blank v then [] else (k, v) ∷ []

-- `buildConnString` of the replication package
unfoldable pub conn_url : DbConfig → Bool → Url
unfolding codes decimal_int
conn_url config replication_mode = record {
  scheme = codes "postgres";
  user = config.user;
  password = config.password;
  host = config.host ++ (codes ":" ++ decimal_int config.port);
  path = config.database;
  query =
      (if replication_mode then (codes "replication", codes "database") ∷ [] else [])
      ++ unless_blank (codes "sslmode") config.ssl_mode
      ++ unless_blank (codes "sslrootcert") config.ssl_root_cert_path;
}

unfoldable pub build_conn_string : DbConfig → Bool → Text
unfolding url_string conn_url
build_conn_string config replication_mode = url_string (conn_url config replication_mode)

-- `buildConnString` of the coordinator package
unfoldable pub coordinator_conn_string : DbConfig → Text
unfolding url_string conn_url
coordinator_conn_string config = url_string (conn_url config false)
