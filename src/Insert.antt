-- ===== src/Insert.antt =====
-- Inserting row structs: insert.go, with `WrapErrorWithQuery` of errors.go. The reflection of the
-- row type stands behind the interface `StructReflector`, at the struct type and the options of
-- the call, IgnoreReadOnly among them.
pub mod Run
pub mod Batches
pub mod Cache
pub mod Rows
pub mod Delivery
pub mod Succeeds
pub mod Executed
pub mod Atomic
use go_sqldb.Prelude.{
  ℕ, zero, suc, ◌+◌, ◌-◌, ◌*◌, ◌/◌, ◌%◌, Bool, true, false, ◌&&◌, ◌||◌, List, [], ◌∷◌, ◌++◌, Option,
  none, some, Bytes, length, take, drop, ltb, leb, ◌==◌, if◌then◌else◌, Error, tx_begin_error,
  tx_rollback_error, tx_commit_error, serialized_retried, savepoint_rollback_error, query_error,
  with_query, prepare_error, joined, no_columns, max_args_below_columns, Result, ok, err, ◌>>=◌,
}
use go_sqldb.Value.{Value}
use go_sqldb.Formatter.{QueryFormatter}
use go_sqldb.Builder.{ColumnInfo, QueryBuilder}
use go_sqldb.Transaction.{Connection, World, Outcome, returned, panicked, transaction}

-- `errors.As(err, &wrapped)` for errWithQuery.
pub has_query : Error → Bool
has_query (with_query q e) = true
has_query (tx_begin_error id e) = has_query e
has_query (tx_rollback_error id e e') = has_query e || has_query e'
has_query (tx_commit_error id e) = has_query e
has_query (serialized_retried n e) = has_query e
has_query (savepoint_rollback_error e e') = has_query e'
has_query (query_error e) = has_query e
has_query (prepare_error e) = has_query e
has_query (joined e e') = has_query e || has_query e'
has_query _ = false

unfoldable pub wrap_error_with_query : Bytes → Error → Error
unfolding has_query
wrap_error_with_query query e = if has_query e then e else with_query query e

-- `errors.Join`; one error alone is left as it is.
abbrev pub join_errors : Option Error → Option Error → Option Error
join_errors none e = e
join_errors (some e) none = some e
join_errors (some e) (some e') = some (joined e e')

-- Rows of a type `R`, whose fields have indices of a type `I`.
pub record StructReflector (R I : Type 0) : Type 0 where
  pub table_name_for_struct : Result Bytes
  pub deref_struct : R → Result R
  pub reflect_struct_columns : Result (List ColumnInfo)
  pub reflect_struct_values : R → Result (List Value)
  pub reflect_struct_columns_field_indices_and_values :
      R → Result (List ColumnInfo × List I × List Value)
  pub field_by_index : R → I → Value

-- An entry of `insertRowStructQueryCache`.
pub record QueryCache (I : Type 0) : Type 0 where
  pub query : Bytes
  pub struct_field_indices : List I

-- `vals[i] = structVal.FieldByIndex(fieldIndex).Interface()`.
abbrev pub read_fields : {R I : Type 0} → (R → I → Value) → R → List I → List Value
read_fields field_by_index row [] = []
read_fields field_by_index row (i ∷ indices) =
    field_by_index row i ∷ read_fields field_by_index row indices

abbrev pub slice : {R : Type 0} → List R → ℕ → ℕ → List R
slice rows start end = take (end - start) (drop start rows)

-- `fmt.Errorf` around an error.
abbrev pub renamed : {A : Type 0} → (Error → Error) → Result A → Result A
renamed wrap (ok a) = ok a
renamed wrap (err e) = err (wrap e)

-- The number of rows in a full batch, and of full batches and of rows behind them.
pub record Batching : Type 0 where
  pub rows_per_batch : ℕ
  pub num_full_batches : ℕ
  pub num_remainder_rows : ℕ

unfoldable pub batching : ℕ → ℕ → ℕ → Result Batching
batching max_args num_cols num_total_rows =
    if num_cols == 0
    then err no_columns
    else (let per_batch = max_args / num_cols in
        if ltb per_batch 1
        then err (max_args_below_columns max_args num_cols)
        else (let rows_per_batch =
              if ltb num_total_rows per_batch then num_total_rows else per_batch in
            ok (record {
              rows_per_batch = rows_per_batch;
              num_full_batches = num_total_rows / rows_per_batch;
              num_remainder_rows = num_total_rows % rows_per_batch;
            })))

module _ {R I : Type 0} (refl : StructReflector R I) where
  abbrev pub row_values : R → Result (List Value)
  row_values row = do struct_val ← refl.deref_struct row; refl.reflect_struct_values struct_val

  -- `collectValues(start, end)` on the rows from `start` to `end`.
  unfoldable pub collect_values : List R → List Value → Result (List Value)
  collect_values [] vals = ok vals
  collect_values (row ∷ rows) vals = do
    row_vals ← row_values row
    collect_values rows (vals ++ row_vals)

  -- What `InsertRowStruct` caches for a row, and the values of the row.
  unfoldable pub new_entry : QueryBuilder → QueryFormatter → R → Result (QueryCache I × List Value)
  new_entry builder fmtr struct_val = do
    (columns, indices, vals) ← refl.reflect_struct_columns_field_indices_and_values struct_val
    table ← refl.table_name_for_struct
    query ← renamed query_error (builder.insert fmtr table columns)
    ok (record { query = query; struct_field_indices = indices }, vals)

  -- The table, the columns and the batches of `InsertRowStructs`.
  unfoldable pub plan_batches : QueryFormatter → ℕ → Result (Bytes × List ColumnInfo × Batching)
  plan_batches fmtr num_total_rows = do
    columns ← refl.reflect_struct_columns
    table ← refl.table_name_for_struct
    batches ← batching fmtr.max_args (length columns) num_total_rows
    ok (table, columns, batches)
