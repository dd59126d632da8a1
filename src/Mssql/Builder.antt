-- ===== src/Mssql/Builder.antt =====
-- The `QueryBuilder` of mssqlconn/querybuilder.go, which writes MERGE statements.
pub mod Refines
use go_sqldb.Prelude.{
  ℕ, Bool, true, false, not, List, [], ◌∷◌, ◌++◌, map, Bytes, codes, length, keep, if◌then◌else◌,
  Error, requires_non_primary_key, Result, ok, err, ◌>>=◌,
}
use go_sqldb.Value.{Value}
use go_sqldb.Space.{split, trim_space}
use go_sqldb.Formatter.{QueryFormatter}
use go_sqldb.Builder.{ColumnInfo, Values, QueryBuilder}
use go_sqldb.Builder.Loops.{write_each, write_some}
use go_sqldb.Builder.Std
use go_sqldb.Builder.Std.{has_non_pk, column_names, placeholders, std_query_builder}

-- `target.%s = source.%s`.
abbrev pub matched : Bytes → Bytes
matched column = codes "target." ++ (column ++ (codes " = source." ++ column))

abbrev pub source_column : Bytes → Bytes
source_column column = codes "source." ++ column

-- WHEN MATCHED THEN UPDATE SET, only if `with_update`.
unfoldable pub write_matched : QueryFormatter → List ColumnInfo → Bool → Bytes → Result Bytes
write_matched f columns false q = ok q
write_matched f columns true q = do
  (q, k) ←
      write_some (codes ",") (λ c. not c.primary_key)
        (λ i k c. f.format_column_name c.name >>= λ column. ok (codes " " ++ matched column)) 0 0
        true columns (q ++ codes " WHEN MATCHED THEN UPDATE SET")
  ok q

unfoldable pub build_merge :
    QueryFormatter → Bytes → List ColumnInfo → List Bytes → Bool → Result Bytes
build_merge f table columns conflict_cols with_update = do
  table ← f.format_table_name table
  q ←
      placeholders f 0 columns
        (codes "MERGE INTO " ++ (table ++ codes " WITH (HOLDLOCK) AS target USING (VALUES("))
  q ← column_names f columns (q ++ codes ")) AS source(")
  q ←
      write_each (codes " AND ")
        (λ i name. f.format_column_name name >>= λ column. ok (matched column)) 0 conflict_cols
        (q ++ codes ") ON ")
  q ← write_matched f columns with_update q
  q ← column_names f columns (q ++ codes " WHEN NOT MATCHED THEN INSERT (")
  q ←
      write_each (codes ",")
        (λ i c. f.format_column_name c.name >>= λ column. ok (source_column column)) 0 columns
        (q ++ codes ") VALUES (")
  ok (q ++ codes ");")

unfoldable pub insert_unique : QueryFormatter → Bytes → List ColumnInfo → Bytes → Result Bytes
insert_unique f table columns conflict_target =
    build_merge f table columns (map trim_space (split b',' conflict_target)) false

unfoldable pub upsert : QueryFormatter → Bytes → List ColumnInfo → Result Bytes
upsert f table columns =
    if not (has_non_pk columns)
    then err requires_non_primary_key
    else build_merge f table columns (map (λ c. c.name) (keep (λ c. c.primary_key) columns)) true
