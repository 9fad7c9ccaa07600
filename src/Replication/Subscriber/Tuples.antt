-- ===== src/Replication/Subscriber/Tuples.antt =====
-- state-sync-engine/internal/replication/subscriber.go: the relations, and the rows of the messages.
-- The fields that the code finds by reflection are the fields of pglogrepl's messages. A pointer
-- may be nil.
pub mod Rows
use cloud_comp_project.Base.{
  ℕ, ◌+◌, ◌==◌, Option, none, some, List, [], ◌∷◌, ◌++◌, map, Text, text_eq, codes, decimal,
  is_blank, if◌then◌else◌,
}
use cloud_comp_project.Interfaces.{Value, null, string, Row}
use cloud_comp_project.Replication.Subscriber.{RelationInfo, Subscriber}

-- `pglogrepl.RelationMessage`, with the names of its columns.
pub record RelationMessage : Type 0 where
  pub relation_id : ℕ
  pub namespace : Text
  pub relation_name : Text
  pub columns : List (Option Text)

-- `pglogrepl.TupleDataColumn`
pub record TupleColumn : Type 0 where
  pub data_type : ℕ
  pub bytes : Text

-- `pglogrepl.TupleData`, as its columns.
abbrev pub Tuple : Type 0
Tuple = List (Option TupleColumn)

abbrev pub column_name : Option Text → Text
column_name none = []
column_name (some name) = name

-- `storeRelation`
unfoldable pub store_relation : RelationMessage → Subscriber → Subscriber
store_relation m s =
    let info : RelationInfo = record {
      table = m.namespace ++ 46 ∷ m.relation_name;
      columns = map column_name m.columns;
    } in
    record s { relations = (m.relation_id, info) ∷ s.relations }

-- `s.relationByID[relationID]`
unfoldable pub find_relation : ℕ → List (ℕ × RelationInfo) → Option RelationInfo
find_relation id [] = none
find_relation id ((key, info) ∷ rest) =
    let later = find_relation id rest in if key == id then some info else later

abbrev pub table_of : Option RelationInfo → Text
table_of none = []
table_of (some info) = info.table

abbrev pub columns_of : Option RelationInfo → List Text
columns_of none = []
columns_of (some info) = info.columns

-- `relationName`
unfoldable pub relation_name : Subscriber → ℕ → Text
unfolding find_relation
relation_name s id = table_of (find_relation id s.relations)

-- `relationColumns`
unfoldable pub relation_columns : Subscriber → ℕ → List Text
unfolding find_relation
relation_columns s id = columns_of (find_relation id s.relations)

-- `row[key] = value`
unfoldable pub set_value : Text → Value → Row → Row
set_value key value [] = (key, value) ∷ []
set_value key value ((k, v) ∷ row) =
    let rest = set_value key value row in if text_eq k key then (k, value) ∷ row else (k, v) ∷ rest

-- the name of the column at the index `i`; `rest` are the known names from there on
pub name_at : ℕ → List Text → Text
unfolding codes decimal
name_at i [] = codes "col_" ++ decimal (i + 1)
name_at i (name ∷ rest) = if is_blank name then codes "col_" ++ decimal (i + 1) else name

abbrev pub names_after : List Text → List Text
names_after [] = []
names_after (name ∷ rest) = rest

-- the value of a column: 'n' is a null, and 'u' an unchanged TOAST value
pub column_value : TupleColumn → Value
unfolding codes
column_value c =
    if c.data_type == 110
    then null
    else if c.data_type == 117
    then string (codes "unchanged_toast")
    else string c.bytes

-- the loop of `extractTuple` from the index `i` on
pub extract_columns : ℕ → List Text → Tuple → Row → Row
unfolding name_at column_value set_value
extract_columns i names [] row = row
extract_columns i names (none ∷ columns) row =
    extract_columns (i + 1) (names_after names) columns row
extract_columns i names (some c ∷ columns) row =
    extract_columns (i + 1) (names_after names) columns
      (set_value (name_at i names) (column_value c) row)

-- `extractTuple`, for the tuple in the field that is asked for
unfoldable pub extract_tuple : Option Tuple → List Text → Row
unfolding extract_columns
extract_tuple none names = []
extract_tuple (some columns) names = extract_columns 0 names columns []
