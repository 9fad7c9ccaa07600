-- ===== src/Examples/CoordinatorRuns.antt =====
-- Runs of the coordinator on a server with one database, which tells the statements apart by their
-- first and last characters.
use cloud_comp_project.Base.{
  true, ℕ, ◌≡◌, ◌≢◌, ◌⊎◌, refl, ap, ◌∙◌, sym, ◌==◌, Option, none, some, [], ◌∷◌, ◌++◌, Text, pos,
  codes, if◌then◌else◌, text_eq, trim_space, is_space,
}
use cloud_comp_project.Interfaces.{
  DistributedLock, ReplicationPublisher, DbConfig, DatabaseState, read_only, read_write, ok,
}
use cloud_comp_project.Replication.Identifier.{quote_identifier, double_quotes}
use cloud_comp_project.Coordinator.{
  CoordinatorError, Sessions, alter_sql, on_text, off_text, terminate_sql, reset_sql, set_read_only,
  set_read_write, not_read_only, parse_state,
}
use cloud_comp_project.Failover.Safety.{HasModes}
use cloud_comp_project.Failover.Postgres.{with_postgres, pg_coordinator-HasModes}
use cloud_comp_project.Coordinator.Transitions.{setting_text, IsPostgres, transitions_unverified}
use cloud_comp_project.Coordinator.Effects.{LeftReadOnly, set_read_only_leaves}

pub record Server : Type 0 where
  pub default : DatabaseState
  pub session : DatabaseState

abbrev last_of : ℕ → Text → ℕ
last_of d [] = d
last_of d (r ∷ s) = last_of r s

last_append : (d : ℕ) (s : Text) (r : ℕ) (t : Text) → last_of d (s ++ r ∷ t) ≡ last_of r t
last_append d [] r t = refl
last_append d (x ∷ s) r t = last_append x s r t

abbrev exec_sql : Text → Server → Option (Unit {0}) × Server
exec_sql [] w = (none, w)
exec_sql (r ∷ sql) w = (
  none,
  if r == 65
      then record w { default = if last_of r sql == 110 then read_only else read_write }
      else w,
)

abbrev pg : Sessions Server (Unit {0}) (Unit {0})
pg = record {
  open_session = λ db w. (ok tt, record w { session = w.default });
  exec = λ c sql args w. exec_sql sql w;
  show = λ c sql w. (ok (setting_text w.session), w);
  close = λ c w. w;
}

abbrev ended : ℕ → Server → Option (Unit {0}) × Server
ended n w = (none, record w { default = if n == 110 then read_only else read_write })

alters :
    (name : Text) (s : DatabaseState) (w : Server)
    → exec_sql (alter_sql name (setting_text s)) w ≡ (none, record w { default = s })
unfolding alter_sql on_text off_text codes quote_identifier
alters name read_only w =
    ap (λ n. ended n w)
      (last_append 34
        ((double_quotes name ++ 34 ∷ []) ++ codes " SET default_transaction_read_only = ") 111
        (110 ∷ []))
alters name read_write w =
    ap (λ n. ended n w)
      (last_append 34
        ((double_quotes name ++ 34 ∷ []) ++ codes " SET default_transaction_read_only = ") 111
        (102 ∷ 102 ∷ []))

pg-IsPostgres : IsPostgres pg (λ db w. w.default) (λ c w. w.session)
unfolding terminate_sql reset_sql codes
pg-IsPostgres = record {
  opened = λ db w c h. refl;
  open_keeps = λ db w. refl;
  altered = λ db w w' c s h p. ap (λ r. r.1.default) (alters db.database s w);
  not_altered = λ db w c s e h. let p = sym (ap (λ r. r.0) (alters db.database s w)) ∙ h in cc;
  terminate_keeps = λ db c args w. refl;
  reset_keeps = λ db c w. refl;
  alter_session = λ db c s w. ap (λ r. r.1.session) (alters db.database s w);
  terminate_session = λ c args w. refl;
  reset_session = λ c w. refl;
  show_reads = λ c w v h. cc;
  show_keeps = λ db c w. refl;
  close_keeps = λ db c w. refl;
}

abbrev db : DbConfig
db = record {
  host = codes "h";
  port = pos 5432;
  database = codes "d";
  user = codes "u";
  password = codes "p";
  ssl_mode = codes "r";
  ssl_root_cert_path = [];
  replication_slot = codes "s";
}

abbrev writable : Server
writable = record { default = read_write; session = read_write }

-- The database becomes read-only, and SetReadOnly reports that it is not.
reports_old_session :
    set_read_only pg db writable
    ≡ (some (not_read_only read_write), record { default = read_only; session = read_write })
unfolding set_read_only alter_sql quote_identifier on_text off_text codes terminate_sql reset_sql
    parse_state text_eq trim_space is_space
reports_old_session = refl

transitions_unverified_example :
    (((set_read_only pg db writable).0 ≢ none) ⊎ (writable.default ≡ read_only))
    × (((set_read_write pg db writable).0 ≢ none) ⊎ (writable.default ≡ read_write))
transitions_unverified_example =
    transitions_unverified pg (λ db w. w.default) (λ c w. w.session) pg-IsPostgres db writable

set_read_only_leaves_example :
    LeftReadOnly pg
      (λ db w. w.default)
      (λ c w. w.session)
      pg-IsPostgres
      db
      writable
      (set_read_only pg db writable)
set_read_only_leaves_example =
    set_read_only_leaves pg (λ db w. w.default) (λ c w. w.session) pg-IsPostgres db writable

-- a lock that nobody holds, and a publisher that does nothing
abbrev free_lock : DistributedLock Server (CoordinatorError (Unit {0}))
free_lock = record {
  acquire = λ key ttl w. (ok true, w);
  renew = λ key ttl w. (none, w);
  release = λ key w. (none, w);
  get_holder = λ key w. (ok [], w);
}

abbrev idle_publisher : ReplicationPublisher Server (CoordinatorError (Unit {0}))
idle_publisher = record { publish = λ batch w. (none, w); health_check = λ w. (none, w) }

pg_coordinator-HasModes_example :
    HasModes
      (with_postgres pg free_lock idle_publisher (λ w. 0) true (λ r w. w))
      (λ db w. w.default)
pg_coordinator-HasModes_example =
    pg_coordinator-HasModes pg free_lock idle_publisher (λ w. 0) true (λ r w. w) (λ db w. w.default)
      (λ c w. w.session) pg-IsPostgres (λ key db w. refl) (λ r db w. refl)
