-- ===== src/Builder/Std.antt =====
-- `StdQueryBuilder` and `StdReturningQueryBuilder` of querybuilder.go.
pub mod Refines
use go_sqldb.Prelude.{
  ℕ, ◌+◌, ◌*◌, Bool, true, false, not, List, [], ◌∷◌, ◌++◌, map, Bytes, codes, length, indices,
  if◌then◌else◌, ltb, Error, num_rows_below_one, requires_non_primary_key, requires_column,
  index_out_of_range, Result, ok, err, ◌>>=◌, ◌==◌,
}
use go_sqldb.Value.{Value}
use go_sqldb.Formatter.{QueryFormatter}
use go_sqldb.Builder.{ColumnInfo, Values, QueryBuilder}
use go_sqldb.Builder.Loops.{write_each, write_some}
use go_sqldb.Builder.Values.{sorted_columns_and_values}

-- ` AND %s = %s`, and `%s = %s` for the first key.
abbrev pub write_condition : QueryFormatter → ℕ → Bytes → Result Bytes
write_condition f i name = do
  column ← f.format_column_name name
  ok (column ++ (codes " = " ++ f.format_placeholder i))

abbrev pub write_assignment : QueryFormatter → ℕ → Bytes → Result Bytes
write_assignment f i name = do
  column ← f.format_column_name name
  ok (codes " " ++ (column ++ (codes "=" ++ f.format_placeholder i)))

-- `pkColumns[0]` panics if there is none.
abbrev pk_loop : QueryFormatter → Bytes → List Bytes → Result Bytes
pk_loop f table [] = err index_out_of_range
pk_loop f table (pk ∷ pks) = do
  first_condition ← write_condition f 0 pk
  write_each (codes " AND ") (write_condition f) 1 pks
      (codes "SELECT * FROM " ++ (table ++ (codes " WHERE " ++ first_condition)))

unfoldable pub query_row_with_pk : QueryFormatter → Bytes → List Bytes → Result Bytes
query_row_with_pk f table pk_columns = do
  table ← f.format_table_name table
  pk_loop f table pk_columns

abbrev pub column_names : QueryFormatter → List ColumnInfo → Bytes → Result Bytes
column_names f columns q = write_each (codes ",") (λ i c. f.format_column_name c.name) 0 columns q

abbrev pub placeholders : QueryFormatter → ℕ → List ColumnInfo → Bytes → Result Bytes
placeholders f offset columns q =
    write_each (codes ",") (λ i c. ok (f.format_placeholder (offset + i))) 0 columns q

unfoldable pub insert : QueryFormatter → Bytes → List ColumnInfo → Result Bytes
insert f table columns = do
  table ← f.format_table_name table
  q ← column_names f columns (codes "INSERT INTO " ++ (table ++ codes "("))
  q ← placeholders f 0 columns (q ++ codes ") VALUES(")
  ok (q ++ codes ")")

-- `for row := range numRows`.
unfoldable pub write_row : QueryFormatter → List ColumnInfo → ℕ → Result Bytes
write_row f columns row = do
  q ← placeholders f (row * length columns) columns (codes "(")
  ok (q ++ codes ")")

-- `numRows` is not negative here.
unfoldable pub insert_rows : QueryFormatter → Bytes → List ColumnInfo → ℕ → Result Bytes
insert_rows f table columns num_rows =
    if ltb num_rows 1 then err (num_rows_below_one num_rows) else do
      table ← f.format_table_name table
      q ← column_names f columns (codes "INSERT INTO " ++ (table ++ codes "("))
      write_each (codes ",") (λ i row. write_row f columns row) 0 (indices 0 num_rows)
          (q ++ codes ") VALUES")

unfoldable pub update :
    QueryFormatter → Bytes → Values → Bytes → List Value → Result (Bytes × List Value)
update f table values where_condition where_args = do
  table ← f.format_table_name table
  let (columns, vals) = sorted_columns_and_values values
  q ←
      write_each (codes ",") (λ i c. write_assignment f (length where_args + i) c.name) 0 columns
        (codes "UPDATE " ++ (table ++ codes " SET"))
  ok (q ++ (codes " WHERE " ++ where_condition), where_args ++ vals)

abbrev pub has_non_pk : List ColumnInfo → Bool
has_non_pk [] = false
has_non_pk (c ∷ cs) = if not c.primary_key then true else has_non_pk cs

unfoldable pub update_columns : QueryFormatter → Bytes → List ColumnInfo → Result Bytes
update_columns f table columns =
    if not (has_non_pk columns) then err requires_non_primary_key else do
      table ← f.format_table_name table
      (q, placeholder) ←
          write_some (codes ",") (λ c. not c.primary_key) (λ i k c. write_assignment f k c.name) 0 0
            true columns (codes "UPDATE " ++ (table ++ codes " SET"))
      (q, placeholder) ←
          write_some (codes " AND ") (λ c. c.primary_key) (λ i k c. write_condition f k c.name) 0
            placeholder true columns (q ++ codes " WHERE ")
      ok q

unfoldable pub delete : QueryFormatter → Bytes → List ColumnInfo → Result Bytes
delete f table columns = if length columns == 0 then err requires_column else do
  table ← f.format_table_name table
  write_each (codes " AND ") (λ i c. write_condition f i c.name) 0 columns
      (codes "DELETE FROM " ++ (table ++ codes " WHERE "))

abbrev pub std_query_builder : QueryBuilder
std_query_builder = record {
  query_row_with_pk = query_row_with_pk;
  insert = insert;
  insert_rows = insert_rows;
  update = update;
  update_columns = update_columns;
  delete = delete;
}

unfoldable pub insert_returning : QueryFormatter → Bytes → List ColumnInfo → Bytes → Result Bytes
insert_returning f table columns returning_columns = do
  query ← insert f table columns
  ok (query ++ (codes " RETURNING " ++ returning_columns))

unfoldable pub update_returning :
    QueryFormatter → Bytes → Values → Bytes → Bytes → List Value → Result (Bytes × List Value)
update_returning f table values returning_columns where_condition where_args = do
  (query, query_args) ← update f table values where_condition where_args
  ok (query ++ (codes " RETURNING " ++ returning_columns), query_args)
