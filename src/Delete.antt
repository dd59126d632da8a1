-- ===== src/Delete.antt =====
-- Deleting row structs: delete.go. The reflector stands at the struct type and the option
-- OnlyPrimaryKey.
pub mod Results
pub mod Missing
use go_sqldb.Prelude.{
  ℕ, true, List, [], ◌∷◌, Option, Bytes, ◌==◌, if◌then◌else◌, Error, query_error, no_primary_key,
  no_rows, Result, ok, err, ◌>>=◌,
}
use go_sqldb.Value.{Value}
use go_sqldb.Formatter.{QueryFormatter}
use go_sqldb.Builder.{ColumnInfo, QueryBuilder}
use go_sqldb.Transaction.{Connection, World, Outcome}
use go_sqldb.Action.{on_store}
use go_sqldb.Insert.{StructReflector, QueryCache, renamed, wrap_error_with_query}
use go_sqldb.Rows.{RowMethods, row_struct, row_structs}

-- `Executor.ExecRowsAffected` and `Stmt.ExecRowsAffected`.
pub record RowsAffected (S C : Type 0) : Type 0 where
  pub exec_rows_affected : C → Bytes → List Value → S → Result ℕ × S
  pub stmt_exec_rows_affected : C → ℕ → List Value → S → Result ℕ × S

-- `len(columns) == 0` is an error.
abbrev pub some_columns : List ColumnInfo → Result (Unit {0})
some_columns [] = err no_primary_key
some_columns (col ∷ columns) = ok tt

-- The end of both executions: no row deleted is an error, too.
unfoldable pub affected : Bytes → Result ℕ → Result (Unit {0})
affected query (err e) = err (wrap_error_with_query query e)
affected query (ok n) = if n == 0 then err (wrap_error_with_query query no_rows) else ok tt

module _ {R I : Type 0} (refl : StructReflector R I) (builder : QueryBuilder)
    (fmtr : QueryFormatter) where
  unfoldable pub delete_entry : R → Result (QueryCache I × List Value)
  delete_entry struct_val = do
    (columns, indices, vals) ← refl.reflect_struct_columns_field_indices_and_values struct_val
    _ ← some_columns columns
    table ← refl.table_name_for_struct
    query ← renamed query_error (builder.delete fmtr table columns)
    ok (record { query = query; struct_field_indices = indices }, vals)

  unfoldable pub delete_statement : Result (Bytes × List ColumnInfo)
  delete_statement = do
    table ← refl.table_name_for_struct
    columns ← refl.reflect_struct_columns
    _ ← some_columns columns
    query ← renamed query_error (builder.delete fmtr table columns)
    ok (query, columns)

  unfoldable pub delete_values : R → Result (List Value)
  delete_values row = do struct_val ← refl.deref_struct row; refl.reflect_struct_values struct_val

module _ {S C R I : Type 0} (conn : Connection S C) (rows : RowsAffected S C)
    (refl : StructReflector R I) (builder : QueryBuilder) (fmtr : QueryFormatter) where
  abbrev pub delete_methods : RowMethods S C R I
  delete_methods = record {
    reflector = refl;
    entry = delete_entry refl builder fmtr;
    statement = delete_statement refl builder fmtr;
    row_values = λ columns. delete_values refl builder fmtr;
    exec = λ c query vals.
        on_store
          (λ s. let (r, s') = rows.exec_rows_affected c query vals s in (affected query r, s'));
    stmt_exec = λ c stmt query vals.
        on_store
          (λ s. let (r, s') = rows.stmt_exec_rows_affected c stmt vals s in (affected query r, s'));
  }

  unfoldable pub delete_row_struct :
      C → Option (QueryCache I) → R → World S → (Option Error × Option (QueryCache I)) × World S
  delete_row_struct c = row_struct conn delete_methods c true

  unfoldable pub delete_row_structs :
      C → Option (QueryCache I) → List R → World S → (Outcome × Option (QueryCache I)) × World S
  delete_row_structs c = row_structs conn delete_methods c true
