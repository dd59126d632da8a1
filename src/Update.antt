-- ===== src/Update.antt =====
-- Updating row structs: `UpdateRowStruct`, `UpdateRowStructStmt`, `UpdateRowStructs` and
-- `reorderForUpdate` of update.go. As in Insert, the reflector stands at the struct type and the
-- options of the call.
pub mod Reorder
pub mod Run
pub mod Cache
pub mod Unwrapped
pub mod Atomic
use go_sqldb.Prelude.{
  ℕ, Bool, true, false, not, List, [], ◌∷◌, ◌++◌, Option, none, some, Bytes, if◌then◌else◌, Error,
  query_error, prepare_error, no_primary_key, index_out_of_range, Result, ok, err, ◌>>=◌,
}
use go_sqldb.Value.{Value}
use go_sqldb.Formatter.{QueryFormatter}
use go_sqldb.Builder.{ColumnInfo, QueryBuilder}
use go_sqldb.Insert.{StructReflector, QueryCache, renamed}

-- One of the two loops of `reorderForUpdate`: the entries of the columns that are used.
unfoldable pub entries_of :
    {T : Type 0} → (ColumnInfo → Bool) → List ColumnInfo → List T → Result (List T)
entries_of used [] vals = ok []
entries_of used (col ∷ columns) [] =
    let rest = entries_of used columns [] in if used col then err index_out_of_range else rest
entries_of used (col ∷ columns) (val ∷ vals) =
    let rest = entries_of used columns vals in
    if used col then (rest >>= λ more. ok (val ∷ more)) else rest

unfoldable pub reorder_for_update : {T : Type 0} → List ColumnInfo → List T → Result (List T)
reorder_for_update columns vals = do
  first ← entries_of (λ col. not col.primary_key) columns vals
  last ← entries_of (λ col. col.primary_key) columns vals
  ok (first ++ last)

-- `slices.ContainsFunc` for a key column.
abbrev pub has_pk : List ColumnInfo → Bool
has_pk [] = false
has_pk (col ∷ columns) = if col.primary_key then true else has_pk columns

module _ {R I : Type 0} (refl : StructReflector R I) (builder : QueryBuilder)
    (fmtr : QueryFormatter) where
  -- The query of a struct type with the columns given; the statement's error is wrapped.
  unfoldable pub update_entry : R → Result (QueryCache I × List Value)
  update_entry struct_val = do
    (columns, indices, vals) ← refl.reflect_struct_columns_field_indices_and_values struct_val
    table ← refl.table_name_for_struct
    query ←
        (if not (has_pk columns)
          then err no_primary_key
          else builder.update_columns fmtr table columns)
    indices ← reorder_for_update columns indices
    vals ← reorder_for_update columns vals
    ok (record { query = query; struct_field_indices = indices }, vals)

  -- The query and the columns of `UpdateRowStructStmt`.
  unfoldable pub update_statement : Result (Bytes × List ColumnInfo)
  update_statement = do
    table ← refl.table_name_for_struct
    columns ← refl.reflect_struct_columns
    query ←
        (if not (has_pk columns)
          then err no_primary_key
          else renamed query_error (builder.update_columns fmtr table columns))
    ok (query, columns)

  unfoldable pub update_values : List ColumnInfo → R → Result (List Value)
  update_values columns row = do
    struct_val ← refl.deref_struct row
    vals ← refl.reflect_struct_values struct_val
    reorder_for_update columns vals
