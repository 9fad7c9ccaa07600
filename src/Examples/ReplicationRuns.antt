-- ===== src/Examples/ReplicationRuns.antt =====
-- Runs of the publisher on a database that fails on a statement when its budget is used up, and
-- statements for events.
use mathlib.Core.List.{Nodup, Nodup-cons, Nodup-nil, not-mem-nil, Permᴰ, mem-singleton}
use cloud_comp_project.Base.{
  ℕ, zero, suc, ◌≡◌, refl, true, false, Option, none, some, List, [], ◌∷◌, ◌++◌, arith, pos, Text,
  text_eq, text_eq_self, codes, ap, ◌∙◌, ◌≢◌, decimal, join,
}
use cloud_comp_project.Interfaces.{
  ChangeEvent, ok, operation_insert, operation_update, Row, null, string,
}
use cloud_comp_project.Replication.Identifier.{
  dot, split, quote_identifier, quote_qualified_table, is_safe_identifier,
}
use cloud_comp_project.Replication.Identifier.Scan.{
  AreSafe, scan_identifier, scan_table, quote_identifier-scan, quote_qualified_table-scan,
}
use cloud_comp_project.Replication.Sql.{
  Statement, build_dml, build_insert_sql, build_update_sql, build_where_clause,
  choose_predicate_row, sorted_keys, sort, insert, text_leb, lookup,
}
use cloud_comp_project.Replication.Sql.Rows.{SameMap, build_dml-SameMap}
use cloud_comp_project.Replication.Publisher.{Pool, publish}
use cloud_comp_project.Replication.Publisher.Rounds.{IsTransactional}
use cloud_comp_project.Replication.Publisher.Batches.{Outcome, publish_batchwise}

pub record Database : Type 0 where
  pub committed : List Statement
  pub pending : List Statement
  pub budget : ℕ

abbrev exec_with : ℕ → Statement → Database → Option (Unit {0}) × Database
exec_with zero s w = (some tt, record w { budget = 5 })
exec_with (suc n) s w = (none, record w { pending = w.pending ++ s ∷ []; budget = n })

abbrev pub pool : Pool Database (Unit {0}) (Unit {0})
pool = record {
  ping = λ w. (none, w);
  begin_tx = λ w. (ok tt, record w { pending = [] });
  exec = λ tx q args w. exec_with w.budget (q, args) w;
  commit = λ tx w. (none, record w { committed = w.committed ++ w.pending });
  rollback = λ tx w. (none, w);
  select_one = λ w. (ok (pos 1), w);
  close = λ w. w;
}

pub pool-IsTransactional : IsTransactional pool (λ w. w.committed) (λ w. w.pending)
pool-IsTransactional = record {
  begin_keeps = λ w. refl;
  begin_empty = λ w tx h. refl;
  exec_keeps = λ tx q args w. ground arith;
  exec_adds = λ tx q args w h. ground arith;
  rollback_keeps = λ tx w. refl;
  commit_done = λ tx w h. refl;
  commit_failed = λ tx w e h. cc;
}

-- the row with the column "id" and a value
abbrev pub row : Text → Row
row v = (codes "id", string v) ∷ []

abbrev pub event : Text → ChangeEvent
event v = record {
  lsn = 1;
  timestamp = 1;
  table = codes "public.t";
  operation = operation_insert;
  old_row = [];
  new_row = row v;
}

abbrev pub statement : Text → Statement
statement v = (codes "INSERT INTO \"public\".\"t\" (\"id\") VALUES ($1)", string v ∷ [])

abbrev pub database : ℕ → Database
database budget = record { committed = []; pending = []; budget = budget }

abbrev a : Text
a = codes "a"

abbrev b : Text
b = codes "b"

inserts : build_dml (event (codes "a")) ≡ ok (statement (codes "a"))
unfolding build_dml quote_qualified_table quote_identifier build_insert_sql codes decimal join
    is_safe_identifier sorted_keys sort insert lookup text_eq
inserts = refl

abbrev pub both : List ChangeEvent
both = event (codes "a") ∷ event (codes "b") ∷ []

-- The second of two batches fails. The first stays, and a second call applies it again.
applies_twice :
    (publish
      (record { pool = some pool; batch_size = 1 })
      both
      (publish (record { pool = some pool; batch_size = 1 }) both (database 1)).1).1.committed
    ≡ statement (codes "a") ∷ statement (codes "a") ∷ statement (codes "b") ∷ []
unfolding publish build_dml quote_qualified_table quote_identifier build_insert_sql codes decimal
    join is_safe_identifier sorted_keys sort insert lookup text_eq
applies_twice = refl

publish_batchwise_example :
    Outcome
      (λ w. w.committed)
      1
      both
      (database 1)
      (publish (record { pool = some pool; batch_size = 1 }) both (database 1))
publish_batchwise_example =
    publish_batchwise pool (λ w. w.committed) (λ w. w.pending) pool-IsTransactional 1 both
      (database 1) (omega arith)

reads_quoted :
    scan_identifier (quote_identifier (codes "a\"; DROP TABLE t") ++ codes ".b")
    ≡ some (codes "a\"; DROP TABLE t", codes ".b")
unfolding codes
reads_quoted = quote_identifier-scan (codes "a\"; DROP TABLE t") (codes ".b") refl

quoted : quote_qualified_table (codes "public.t") ≡ ok (codes "\"public\".\"t\"")
unfolding quote_qualified_table quote_identifier codes is_safe_identifier
quoted = refl

quote_qualified_table-scan_example :
    (scan_table (codes "\"public\".\"t\"") ≡ some (split dot (codes "public.t")))
    × AreSafe (split dot (codes "public.t"))
    × (join (dot ∷ []) (split dot (codes "public.t")) ≡ codes "public.t")
quote_qualified_table-scan_example =
    quote_qualified_table-scan (codes "public.t") (codes "\"public\".\"t\"") quoted

abbrev pub pair : Row
pair = (codes "a", null) ∷ (codes "b", string (codes "1")) ∷ []

abbrev swapped : Row
swapped = (codes "b", string (codes "1")) ∷ (codes "a", null) ∷ []

abbrev pub update : ChangeEvent
update = record (event []) { operation = operation_update; old_row = pair; new_row = pair }

differ : (s t : Text) → text_eq s t ≡ false → s ≢ t
differ s t h p = let e : text_eq s t ≡ true = ap (λ x. text_eq x t) p ∙ text_eq_self t in cc

pub distinct_pair : Nodup (codes "a" ∷ codes "b" ∷ [])
unfolding codes text_eq
distinct_pair = Nodup-cons.1 (
  λ m. differ a b refl ((mem-singleton {A = Text} hlevel).0 m),
  Nodup-cons.1 (not-mem-nil, Nodup-nil),
)

pair-SameMap : SameMap pair swapped
pair-SameMap = record { distinct = distinct_pair; reordered = Permᴰ.swap refl refl }

build_dml-SameMap_example :
    build_dml update ≡ build_dml (record update { old_row = swapped; new_row = swapped })
build_dml-SameMap_example = build_dml-SameMap update swapped swapped pair-SameMap pair-SameMap

pub updates :
    build_dml update
    ≡ ok (
      codes "UPDATE \"public\".\"t\" SET \"a\" = $1, \"b\" = $2 WHERE \"a\" IS NULL AND \"b\" = $3",
      null ∷ string (codes "1") ∷ string (codes "1") ∷ [],
    )
unfolding build_dml quote_qualified_table quote_identifier build_update_sql build_where_clause
    choose_predicate_row codes decimal join is_safe_identifier sorted_keys sort insert text_leb
    lookup text_eq
updates = refl
