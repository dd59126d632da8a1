-- ===== src/Mysql/Builder.antt =====
-- The `QueryBuilder` of mysqlconn/querybuilder.go.
pub mod Refines
use go_sqldb.Prelude.{
  ℕ, Bool, true, false, not, ◌&&◌, List, [], ◌∷◌, ◌++◌, map, Bytes, codes, length, take, drop, ◌-◌,
  ◌+◌, ltb, leb, if◌then◌else◌, Error, requires_non_primary_key, Result, ok, err, ◌>>=◌, ◌==◌,
}
use go_sqldb.Value.{Value}
use go_sqldb.Space.{split, trim_space}
use go_sqldb.Formatter.{QueryFormatter}
use go_sqldb.Builder.{ColumnInfo, Values, QueryBuilder}
use go_sqldb.Builder.Loops.{write_each, write_some}
use go_sqldb.Builder.Std
use go_sqldb.Builder.Std.{insert, has_non_pk, write_assignment, std_query_builder}

-- The reordering of the query arguments: `copy` of the two parts into a new slice.
unfoldable pub reorder_args : List Value → List Value → List Value
reorder_args where_args query_args =
    let n_where = length where_args in
    if ltb 0 n_where && ltb n_where (length query_args)
    then drop n_where query_args ++ take n_where query_args
    else query_args

unfoldable pub update :
    QueryFormatter → Bytes → Values → Bytes → List Value → Result (Bytes × List Value)
update f table values where_condition where_args = do
  (query, query_args) ← Std.update f table values where_condition where_args
  ok (query, reorder_args where_args query_args)

-- `conflictCols[0]`; `strings.Split` gives at least one part.
abbrev first_column : List Bytes → Bytes
first_column [] = []
first_column (c ∷ cs) = c

unfoldable pub insert_unique : QueryFormatter → Bytes → List ColumnInfo → Bytes → Result Bytes
insert_unique f table columns conflict_target = do
  query ← insert f table columns
  column ← f.format_column_name (trim_space (first_column (split b',' conflict_target)))
  ok (query ++ (codes " ON DUPLICATE KEY UPDATE " ++ (column ++ (codes " = " ++ column))))

-- ` %s=VALUES(%s)`.
abbrev pub inserted : Bytes → Bytes
inserted column = codes " " ++ (column ++ (codes "=VALUES(" ++ (column ++ codes ")")))

unfoldable pub upsert : QueryFormatter → Bytes → List ColumnInfo → Result Bytes
upsert f table columns = if not (has_non_pk columns) then err requires_non_primary_key else do
  query ← insert f table columns
  (q, k) ←
      write_some (codes ",") (λ c. not c.primary_key)
        (λ i k c. f.format_column_name c.name >>= λ column. ok (inserted column)) 0 0 true columns
        (query ++ codes " ON DUPLICATE KEY UPDATE")
  ok q

abbrev pub query_builder : QueryBuilder
query_builder = record std_query_builder { update = update }
