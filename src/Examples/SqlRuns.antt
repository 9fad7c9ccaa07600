-- ===== src/Examples/SqlRuns.antt =====
-- A statement that is read back.
use cloud_comp_project.Base.{◌≡◌, some, [], ◌∷◌, Text, codes}
use cloud_comp_project.Interfaces.{ok, null, string}
use cloud_comp_project.Replication.Identifier.{quote_qualified_table}
use cloud_comp_project.Replication.Sql.{Statement}
use cloud_comp_project.Replication.Sql.Meaning.{Meaning, read_statement}
use cloud_comp_project.Replication.Sql.Meaning.Events.{Does, build_dml-Does}
use cloud_comp_project.Examples.ReplicationRuns.{update, distinct_pair}
use cloud_comp_project.Examples.ReplicationRuns as Runs

abbrev statement : Statement
statement = (
  codes "UPDATE \"public\".\"t\" SET \"a\" = $1, \"b\" = $2 WHERE \"a\" IS NULL AND \"b\" = $3",
  null ∷ string (codes "1") ∷ string (codes "1") ∷ [],
)

build_dml-Does_example :
    (table : Text) × (m : Meaning) × (quote_qualified_table update.table ≡ ok table)
    × (read_statement table statement ≡ some m)
    × Does update.operation update.old_row update.new_row m
build_dml-Does_example = build_dml-Does update statement distinct_pair distinct_pair Runs.updates
