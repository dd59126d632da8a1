-- ===== src/Upsert/Results.antt =====
-- `UpsertRowStruct` with its query cache and `UpsertRowStructs` in a transaction, of upsert.go.
use go_sqldb.Prelude.{true, List, Option, none, ok, ◌>>=◌, >>=-assoc, Result}
use go_sqldb.Formatter.{QueryFormatter}
use go_sqldb.Builder.{ColumnInfo}
use go_sqldb.Transaction.{Connection, World}
use go_sqldb.Insert.{StructReflector, QueryCache}
use go_sqldb.Insert.Cache.{IsUniform}
use go_sqldb.Rows.Cache.{IsUniformEntry, IsFilled, SameCall, row_struct-same}
use go_sqldb.Upsert.{
  UpsertQueryBuilder, upsert_methods, upsert_entry, upsert_query, upsert_row_struct,
}

module _ {S C R I : Type 0} (conn : Connection S C) (r : StructReflector R I)
    (builder : UpsertQueryBuilder) (fmtr : QueryFormatter) where
  abbrev pub shared_entry : Result (List ColumnInfo × List I) → Result (QueryCache I)
  shared_entry shape = do
    (columns, indices) ← shape
    table ← r.table_name_for_struct
    query ← upsert_query r builder fmtr table columns
    ok (record { query = query; struct_field_indices = indices })

  upsert-IsUniformEntry : IsUniform r → IsUniformEntry conn (upsert_methods conn r builder fmtr)
  unfolding upsert_entry
  upsert-IsUniformEntry u = record {
    shared = shared_entry u.shape;
    entry_of = λ row. simp (u.reflects row, >>=-assoc);
  }

  -- With a reflector whose values are the fields as they are, without a wrapper for any, and a slot
  -- of the cache that is empty or that a row of the struct type
  -- has filled, `UpsertRowStruct` returns the error and leaves the world that it does with an empty
  -- slot, and the slot after it is again empty or filled by a row of the struct type.
  pub upsert_row_struct-SameCall :
      (u : IsUniform r) (slot : Option (QueryCache I))
      → IsFilled conn (upsert_methods conn r builder fmtr) slot
      → (c : C) (row : R) (w : World S)
      → SameCall conn
          (upsert_methods conn r builder fmtr)
          (upsert_row_struct conn r builder fmtr c true slot row w)
          (upsert_row_struct conn r builder fmtr c true none row w)
  unfolding upsert_row_struct
  upsert_row_struct-SameCall u slot h c row w =
      row_struct-same conn (upsert_methods conn r builder fmtr) (upsert-IsUniformEntry u) slot h c
        row w
