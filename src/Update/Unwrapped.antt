-- ===== src/Update/Unwrapped.antt =====
-- The query cache of `UpdateRowStruct` with a reflector that wraps values, which structreflector.go
-- documents: `WrapAsValuer` is called for an empty slot of the cache, and not for a filled one.
use go_sqldb.Prelude.{
  ◌≡◌, refl, sym, ◌∙◌, true, Option, none, some, List, map, Bytes, Error, Result, ok, err, ◌>>=◌,
  >>=-assoc, arith,
}
use go_sqldb.Value.{Value}
use go_sqldb.Formatter.{QueryFormatter}
use go_sqldb.Builder.{ColumnInfo, QueryBuilder}
use go_sqldb.Transaction.{Connection, World}
use go_sqldb.Action.{to_error, of_error}
use go_sqldb.Insert.{StructReflector, QueryCache, wrap_error_with_query}
use go_sqldb.Insert.Run.{wrapped}
use go_sqldb.Builder.Upsert.{bind_cong}
use go_sqldb.Update.{reorder_for_update, update_entry}
use go_sqldb.Update.Reorder.{map_entries}
use go_sqldb.Update.Run.{update_row_struct}
use go_sqldb.Update.Cache.{reorder_for_update-map, read_fields-map, query_for, entry_of, cached}
use go_sqldb.Rows.{exec_wrapped}

-- A reflector whose columns and indices depend on the struct type only, and whose values are the
-- fields at these indices, each wrapped with what `WrapAsValuer` returns for it.
pub record IsWrapping {R I : Type 0} (r : StructReflector R I) : Type 0 where
  pub shape : Result (List ColumnInfo × List I)
  pub wrap_as_valuer : I → Value → Value
  pub reflects :
      (row : R)
      → r.reflect_struct_columns_field_indices_and_values row ≡ (do
        (columns, indices) ← shape
        ok (columns, indices, map (λ i. wrap_as_valuer i (r.field_by_index row i)) indices))

to_error-of_error : (e : Option Error) → to_error (of_error e) ≡ e
to_error-of_error none = refl
to_error-of_error (some e) = refl

module _ {S C R I : Type 0} (conn : Connection S C) (r : StructReflector R I)
    (builder : QueryBuilder) (fmtr : QueryFormatter) where
  -- The query of the entry is executed with the values, and the entry stands in the slot behind it.
  abbrev pub executed :
      C → QueryCache I → List Value → World S → (Option Error × Option (QueryCache I)) × World S
  executed c entry vals w =
      let (e, s) = conn.exec c entry.query vals w.store in
      ((wrapped (wrap_error_with_query entry.query) e, some entry), record w { store = s })

  module _ (u : IsWrapping r) where
    abbrev pub plain_values : R → List I → List Value
    plain_values row = map (r.field_by_index row)

    abbrev pub wrapped_values : R → List I → List Value
    wrapped_values row = map (λ i. u.wrap_as_valuer i (r.field_by_index row i))

    read_reordered :
        (row : R) (query : Bytes) (res : Result (List I))
        → (res >>= λ indices.
            map_entries (λ i. u.wrap_as_valuer i (r.field_by_index row i)) res >>= λ vals.
            cached conn r builder fmtr query indices vals)
          ≡ (res >>= λ indices.
              cached conn r builder fmtr query indices (wrapped_values row indices))
    read_reordered row query (err e) = refl
    read_reordered row query (ok indices) = refl

    update_entry-wrapped :
        (row : R)
        → update_entry r builder fmtr row ≡ (
            entry_of conn r builder fmtr u.shape >>= λ entry.
            ok (entry, wrapped_values row entry.struct_field_indices))
    unfolding update_entry
    update_entry-wrapped row =
        simp (u.reflects row, >>=-assoc, reorder_for_update-map)
          (bind_cong u.shape _ _ λ shape e. bind_cong r.table_name_for_struct _ _ λ table e'.
            bind_cong (query_for conn r builder fmtr table shape.0) _ _
              λ query e''. read_reordered row query (reorder_for_update shape.0 shape.1))

    abbrev paired : R → QueryCache I → Result (QueryCache I × List Value)
    paired row e = ok (e, wrapped_values row e.struct_field_indices)

    entry_with :
        (row row' : R) (res : Result (QueryCache I)) (entry : QueryCache I) (vals : List Value)
        → (res >>= paired row) ≡ ok (entry, vals)
        → (res >>= paired row') ≡ ok (entry, wrapped_values row' entry.struct_field_indices)
    entry_with row row' (ok e) entry vals h = ground arith
    entry_with row row' (err e) entry vals h = absurd cc

    -- Let the reflector wrap values, let the entry be what a row of the struct type has filled the
    -- slot of the cache with, and let the row be dereferenced. Then `UpdateRowStruct` executes the
    -- query of the entry for both an empty slot and the filled one, and leaves the entry in the slot.
    -- For the empty slot the query gets the wrapped values of the fields, for the filled one the
    -- fields as they are, without `WrapAsValuer`.
    pub update_row_struct-unwrapped :
        (filled_by : R) (entry : QueryCache I) (vals : List Value)
        → update_entry r builder fmtr filled_by ≡ ok (entry, vals)
        → (c : C) (row struct_val : R) (w : World S) → r.deref_struct row ≡ ok struct_val
        → (update_row_struct conn r builder fmtr c true none row w
            ≡ executed c entry (wrapped_values struct_val entry.struct_field_indices) w)
          × (update_row_struct conn r builder fmtr c true (some entry) row w
              ≡ executed c entry (plain_values struct_val entry.struct_field_indices) w)
    unfolding update_row_struct go_sqldb.Rows.row_struct exec_wrapped
    update_row_struct-unwrapped filled_by entry vals h c row struct_val w d =
        let same =
          update_entry-wrapped struct_val
          ∙ entry_with filled_by struct_val (entry_of conn r builder fmtr u.shape) entry vals
              (sym (update_entry-wrapped filled_by) ∙ h) in
        (simp (d, same, to_error-of_error) refl, simp (d, read_fields-map, to_error-of_error) refl)
