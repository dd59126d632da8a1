-- ===== src/Update/Cache.antt =====
-- The query cache of `UpdateRowStruct`, whose field indices are reordered like the values.
use go_sqldb.Prelude.{
  ◌≡◌, refl, sym, ap, true, not, Option, none, List, [], ◌∷◌, ◌++◌, map, Bytes, Result, ok, err,
  no_primary_key, ◌>>=◌, >>=-assoc, if◌then◌else◌,
}
use go_sqldb.Value.{Value}
use go_sqldb.Formatter.{QueryFormatter}
use go_sqldb.Builder.{ColumnInfo, QueryBuilder}
use go_sqldb.Transaction.{Connection, World}
use go_sqldb.Insert.{StructReflector, QueryCache, read_fields}
use go_sqldb.Insert.Cache.{IsUniform}
use go_sqldb.Builder.Upsert.{bind_cong}
use go_sqldb.Update.{entries_of, reorder_for_update, has_pk, update_entry}
use go_sqldb.Update.Run.{update_methods, update_row_struct}
use go_sqldb.Rows.Cache.{IsUniformEntry, IsFilled, SameCall, row_struct-same, with_values}
use go_sqldb.Update.Reorder.{map_entries, entries_of-map, map-append}

pub read_fields-map :
    {R I : Type 0} (field : R → I → Value) (row : R) (is : List I)
    → read_fields field row is ≡ map (field row) is
read_fields-map field row [] = refl
read_fields-map field row (i ∷ is) =
    ap (λ (l : List Value). field row i ∷ l) (read_fields-map field row is)

map_entries-append :
    {A B : Type 0} (g : A → B) (p q : Result (List A))
    → (map_entries g p >>= λ first. map_entries g q >>= λ last. ok (first ++ last))
      ≡ map_entries g (p >>= λ first. q >>= λ last. ok (first ++ last))
map_entries-append g (err e) q = refl
map_entries-append g (ok xs) (err e) = refl
map_entries-append g (ok xs) (ok ys) = ap (λ l. ok l) (sym (map-append g xs ys))

pub reorder_for_update-map :
    {A B : Type 0} (g : A → B) (columns : List ColumnInfo) (xs : List A)
    → reorder_for_update columns (map g xs) ≡ map_entries g (reorder_for_update columns xs)
unfolding reorder_for_update
reorder_for_update-map g columns xs =
    rw
      (
        entries_of-map g (λ col. not col.primary_key) columns xs,
        entries_of-map g (λ col. col.primary_key) columns xs,
      )
      (map_entries-append g (entries_of (λ col. not col.primary_key) columns xs)
        (entries_of (λ col. col.primary_key) columns xs))

module _ {S C R I : Type 0} (conn : Connection S C) (r : StructReflector R I)
    (builder : QueryBuilder) (fmtr : QueryFormatter) where
  abbrev pub query_for : Bytes → List ColumnInfo → Result Bytes
  query_for table columns =
      if not (has_pk columns) then err no_primary_key else builder.update_columns fmtr table columns

  abbrev pub entry_of : Result (List ColumnInfo × List I) → Result (QueryCache I)
  entry_of shape = do
    (columns, indices) ← shape
    table ← r.table_name_for_struct
    query ← query_for table columns
    indices ← reorder_for_update columns indices
    ok (record { query = query; struct_field_indices = indices })

  abbrev pub cached : Bytes → List I → List Value → Result (QueryCache I × List Value)
  cached query indices vals = ok (record { query = query; struct_field_indices = indices }, vals)

  read_reordered :
      (row : R) (query : Bytes) (res : Result (List I))
      → (res >>= λ indices.
          map_entries (r.field_by_index row) res >>= λ vals. cached query indices vals)
        ≡ (res >>= λ indices. cached query indices (map (r.field_by_index row) indices))
  read_reordered row query (err e) = refl
  read_reordered row query (ok indices) = refl

  update_entry-entry_of :
      (u : IsUniform r) (row : R)
      → update_entry r builder fmtr row
        ≡ with_values conn (update_methods conn r builder fmtr) row (entry_of u.shape)
  unfolding update_entry
  update_entry-entry_of u row =
      simp (u.reflects row, >>=-assoc, read_fields-map, reorder_for_update-map)
        (bind_cong u.shape _ _ λ shape e. bind_cong r.table_name_for_struct _ _ λ table e'.
          bind_cong (query_for table shape.0) _ _
            λ query e''. read_reordered row query (reorder_for_update shape.0 shape.1))

  update-IsUniformEntry : IsUniform r → IsUniformEntry conn (update_methods conn r builder fmtr)
  update-IsUniformEntry u = record { shared = entry_of u.shape; entry_of = update_entry-entry_of u }

  -- With a reflector whose values are the fields as they are, and a slot of the cache that is empty or that a row of the struct type
  -- has filled, `UpdateRowStruct` returns the error and leaves the world that it does with an empty
  -- slot, and the slot after it is again empty or filled by a row of the struct type.
  pub update_row_struct-IsFilled :
      (u : IsUniform r) (slot : Option (QueryCache I))
      → IsFilled conn (update_methods conn r builder fmtr) slot
      → (c : C) (row : R) (w : World S)
      → SameCall conn
          (update_methods conn r builder fmtr)
          (update_row_struct conn r builder fmtr c true slot row w)
          (update_row_struct conn r builder fmtr c true none row w)
  unfolding update_row_struct
  update_row_struct-IsFilled u slot h c row w =
      row_struct-same conn (update_methods conn r builder fmtr) (update-IsUniformEntry u) slot h c
        row w
