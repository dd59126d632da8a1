-- ===== src/Upsert.antt =====
-- Upserting row structs: upsert.go. As in Insert, the reflector stands at the struct type and the
-- options of the call, IgnoreReadOnly among them.
pub mod Results
use go_sqldb.Prelude.{
  Bool, not, List, Option, Bytes, if◌then◌else◌, Error, query_error, no_primary_key, Result, ok,
  err, ◌>>=◌,
}
use go_sqldb.Value.{Value}
use go_sqldb.Formatter.{QueryFormatter}
use go_sqldb.Builder.{ColumnInfo}
use go_sqldb.Transaction.{Connection, World, Outcome}
use go_sqldb.Insert.{StructReflector, QueryCache, renamed}
use go_sqldb.Update.{has_pk}
use go_sqldb.Rows.{exec_wrapped, stmt_exec_wrapped, RowMethods, row_struct, row_structs}

pub record UpsertQueryBuilder : Type 0 where
  pub insert_unique : QueryFormatter → Bytes → List ColumnInfo → Bytes → Result Bytes
  pub upsert : QueryFormatter → Bytes → List ColumnInfo → Result Bytes

module _ {R I : Type 0} (refl : StructReflector R I) (builder : UpsertQueryBuilder)
    (fmtr : QueryFormatter) where
  abbrev pub upsert_query : Bytes → List ColumnInfo → Result Bytes
  upsert_query table columns =
      if not (has_pk columns)
      then err no_primary_key
      else renamed query_error (builder.upsert fmtr table columns)

  unfoldable pub upsert_entry : R → Result (QueryCache I × List Value)
  upsert_entry struct_val = do
    (columns, indices, vals) ← refl.reflect_struct_columns_field_indices_and_values struct_val
    table ← refl.table_name_for_struct
    query ← upsert_query table columns
    ok (record { query = query; struct_field_indices = indices }, vals)

  unfoldable pub upsert_statement : Result (Bytes × List ColumnInfo)
  upsert_statement = do
    table ← refl.table_name_for_struct
    columns ← refl.reflect_struct_columns
    query ← upsert_query table columns
    ok (query, columns)

  unfoldable pub upsert_values : R → Result (List Value)
  upsert_values row = do struct_val ← refl.deref_struct row; refl.reflect_struct_values struct_val

module _ {S C R I : Type 0} (conn : Connection S C) (refl : StructReflector R I)
    (builder : UpsertQueryBuilder) (fmtr : QueryFormatter) where
  abbrev pub upsert_methods : RowMethods S C R I
  upsert_methods = record {
    reflector = refl;
    entry = upsert_entry refl builder fmtr;
    statement = upsert_statement refl builder fmtr;
    row_values = λ columns. upsert_values refl builder fmtr;
    exec = exec_wrapped conn;
    stmt_exec = stmt_exec_wrapped conn;
  }

  unfoldable pub upsert_row_struct :
      C
      → Bool
      → Option (QueryCache I)
      → R
      → World S
      → (Option Error × Option (QueryCache I)) × World S
  upsert_row_struct = row_struct conn upsert_methods

  unfoldable pub upsert_row_structs :
      C
      → Bool
      → Option (QueryCache I)
      → List R
      → World S
      → (Outcome × Option (QueryCache I)) × World S
  upsert_row_structs = row_structs conn upsert_methods
