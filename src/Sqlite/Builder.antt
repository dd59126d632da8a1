-- ===== src/Sqlite/Builder.antt =====
-- The `QueryBuilder` of sqliteconn/querybuilder.go. Its `InsertUnique` has the text of the
-- PostgreSQL builder's.
pub mod Refines
use go_sqldb.Prelude.{
  ℕ, Bool, true, false, not, ◌&&◌, List, [], ◌∷◌, ◌++◌, map, Bytes, codes, length, take, drop, ◌-◌,
  ◌+◌, ltb, leb, if◌then◌else◌, Error, requires_non_primary_key, Result, ok, err, ◌>>=◌, ◌==◌,
}
use go_sqldb.Value.{Value}
use go_sqldb.Space.{split, trim_space}
use go_sqldb.Formatter.{QueryFormatter}
use go_sqldb.Builder.{ColumnInfo, Values, QueryBuilder}
use go_sqldb.Builder.Loops.{write_each, write_some}
use go_sqldb.Builder.Std
use go_sqldb.Builder.Std.{insert, has_non_pk, write_assignment, std_query_builder}
use go_sqldb.Postgres.Builder.{strip_parentheses}

unfoldable pub insert_unique : QueryFormatter → Bytes → List ColumnInfo → Bytes → Result Bytes
insert_unique f table columns conflict_target = do
  query ← insert f table columns
  ok (
      query
      ++ (codes " ON CONFLICT (" ++ (strip_parentheses conflict_target ++ codes ") DO NOTHING")))

-- ` %s=excluded.%s`.
abbrev pub excluded : Bytes → Bytes
excluded column = codes " " ++ (column ++ (codes "=excluded." ++ column))

unfoldable pub upsert : QueryFormatter → Bytes → List ColumnInfo → Result Bytes
upsert f table columns = if not (has_non_pk columns) then err requires_non_primary_key else do
  query ← insert f table columns
  (q, k) ←
      write_some (codes ",") (λ c. c.primary_key) (λ i k c. f.format_column_name c.name) 0 0 true
        columns (query ++ codes " ON CONFLICT(")
  (q, k) ←
      write_some (codes ",") (λ c. not c.primary_key)
        (λ i k c. f.format_column_name c.name >>= λ column. ok (excluded column)) 0 0 true columns
        (q ++ codes ") DO UPDATE SET")
  ok q
