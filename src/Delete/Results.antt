-- ===== src/Delete/Results.antt =====
-- `DeleteRowStruct` with its query cache and `DeleteRowStructs` in a transaction, of delete.go.
use go_sqldb.Prelude.{◌≡◌, false, true, List, ◌∷◌, Option, none, ok, ◌>>=◌, >>=-assoc, Result}
use go_sqldb.Value.{Value}
use go_sqldb.Formatter.{QueryFormatter}
use go_sqldb.Builder.{ColumnInfo, QueryBuilder}
use go_sqldb.Transaction.{Connection, World, active}
use go_sqldb.Transaction.Atomicity.{IsTransactional, AllOrNothing}
use go_sqldb.Action.{as_outcome}
use go_sqldb.Insert.{StructReflector, QueryCache}
use go_sqldb.Insert.Cache.{IsUniform}
use go_sqldb.Insert.Atomic.{IsPrivate}
use go_sqldb.Rows.{all_rows}
use go_sqldb.Rows.Cache.{IsUniformEntry, IsFilled, SameCall, row_struct-same}
use go_sqldb.Rows.Atomic.{IsPrivateRows, row_structs-AllOrNothing}
use go_sqldb.Delete.{
  RowsAffected, delete_methods, delete_entry, delete_row_struct, delete_row_structs, some_columns,
  renamed, ℕ, query_error,
}

module _ {S C R I : Type 0} (conn : Connection S C) (affecting : RowsAffected S C)
    (r : StructReflector R I) (builder : QueryBuilder) (fmtr : QueryFormatter) where
  abbrev pub shared_entry : Result (List ColumnInfo × List I) → Result (QueryCache I)
  shared_entry shape = do
    (columns, indices) ← shape
    _ ← some_columns columns
    table ← r.table_name_for_struct
    query ← renamed query_error (builder.delete fmtr table columns)
    ok (record { query = query; struct_field_indices = indices })

  delete-IsUniformEntry :
      IsUniform r → IsUniformEntry conn (delete_methods conn affecting r builder fmtr)
  unfolding delete_entry
  delete-IsUniformEntry u = record {
    shared = shared_entry u.shape;
    entry_of = λ row. simp (u.reflects row, >>=-assoc);
  }

  -- With a reflector whose values are the fields as they are, without a wrapper for any, and a slot
  -- of the cache that is empty or that a row of the struct type
  -- has filled, `DeleteRowStruct` returns the error and leaves the world that it does with an empty
  -- slot, and the slot after it is again empty or filled by a row of the struct type.
  pub delete_row_struct-SameCall :
      (u : IsUniform r) (slot : Option (QueryCache I))
      → IsFilled conn (delete_methods conn affecting r builder fmtr) slot
      → (c : C) (row : R) (w : World S)
      → SameCall conn
          (delete_methods conn affecting r builder fmtr)
          (delete_row_struct conn affecting r builder fmtr c slot row w)
          (delete_row_struct conn affecting r builder fmtr c none row w)
  unfolding delete_row_struct
  delete_row_struct-SameCall u slot h c row w =
      row_struct-same conn (delete_methods conn affecting r builder fmtr) (delete-IsUniformEntry u)
        slot h c row w

module _ {S C V R I : Type 0} (conn : Connection S C) (view : S → V) (pending : C → S → V)
    (affecting : RowsAffected S C) (r : StructReflector R I) (builder : QueryBuilder)
    (fmtr : QueryFormatter) where
  -- Nobody else sees what a prepared statement deletes in a transaction.
  abbrev pub DeletesPrivately : Type 0
  DeletesPrivately =
      (c : C) (stmt : ℕ) (args : List Value) (s : S)
      → view (affecting.stmt_exec_rows_affected c stmt args s).1 ≡ view s

  delete-IsPrivateRows :
      IsPrivate conn view
      → DeletesPrivately
      → IsPrivateRows conn view (delete_methods conn affecting r builder fmtr)
  delete-IsPrivateRows law hidden = record {
    prepare_keeps = law.prepare_keeps;
    stmt_close_keeps = law.stmt_close_keeps;
    stmt_exec_keeps = λ c stmt query args w. hidden c stmt args w.store;
  }

  -- `DeleteRowStructs` of two rows or more, on a connection in no transaction of a database that
  -- keeps its promises of transactions and shows others nothing of what is executed on their
  -- connections, deletes all rows or none: if it returns an error, others see the store as it was;
  -- and if it returns none, the function that runs in the transaction returned none, and what was
  -- pending behind it is published.
  pub delete_row_structs-AllOrNothing :
      IsTransactional conn view pending
      → IsPrivate conn view
      → DeletesPrivately
      → (c : C) (slot : Option (QueryCache I)) (row row' : R) (rows : List R) (w : World S)
      → active (conn.transaction c) ≡ false
      → AllOrNothing conn view pending
          (λ tx.
            as_outcome
              (all_rows conn (delete_methods conn affecting r builder fmtr) (row ∷ row' ∷ rows) tx))
          w
          (let (res, w') =
              delete_row_structs conn affecting r builder fmtr c slot (row ∷ row' ∷ rows) w in
            (res.0, w'))
  unfolding delete_row_structs
  delete_row_structs-AllOrNothing law private hidden c slot row row' rows w outside =
      row_structs-AllOrNothing conn view (delete_methods conn affecting r builder fmtr) pending law
        (delete-IsPrivateRows private hidden) c true slot row row' rows w outside
