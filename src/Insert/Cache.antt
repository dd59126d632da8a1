-- ===== src/Insert/Cache.antt =====
-- The query cache of `InsertRowStruct`: a call with the cached entry does what a call without it does.
use go_sqldb.Prelude.{
  ◌≡◌, refl, true, Option, none, some, List, Error, Result, ok, err, query_error, ◌>>=◌, ◌∙◌,
  >>=-assoc, sym, arith, ap,
}
use go_sqldb.Value.{Value}
use go_sqldb.Formatter.{QueryFormatter}
use go_sqldb.Builder.{ColumnInfo, QueryBuilder}
use go_sqldb.Transaction.{Connection, World}
use go_sqldb.Insert.{StructReflector, QueryCache, renamed, new_entry, read_fields}
use go_sqldb.Insert.Run.{insert_row_struct, insert_anew, insert_struct}

-- The columns and the field indices depend on the struct type only, and the values are the
-- fields at those indices, none of which `WrapAsValuer` wraps.
pub record IsUniform {R I : Type 0} (r : StructReflector R I) : Type 0 where
  pub shape : Result (List ColumnInfo × List I)
  pub reflects :
      (row : R)
      → r.reflect_struct_columns_field_indices_and_values row ≡ (do
        (columns, indices) ← shape
        ok (columns, indices, read_fields r.field_by_index row indices))

module _ {S C R I : Type 0} (conn : Connection S C) (r : StructReflector R I)
    (builder : QueryBuilder) (fmtr : QueryFormatter) where
  -- An empty slot of the cache, or one that a row of the struct type has filled.
  pub data IsCached : Option (QueryCache I) → Type 0 where
    empty : IsCached none
    filled :
        (row : R) (entry : QueryCache I) (vals : List Value)
        → new_entry r builder fmtr row ≡ ok (entry, vals)
        → IsCached (some entry)

  abbrev entry_of : Result (List ColumnInfo × List I) → Result (QueryCache I)
  entry_of shape = do
    (columns, indices) ← shape
    table ← r.table_name_for_struct
    query ← renamed query_error (builder.insert fmtr table columns)
    ok (record { query = query; struct_field_indices = indices })

  abbrev with_values : R → Result (QueryCache I) → Result (QueryCache I × List Value)
  with_values row res = do
    entry ← res
    ok (entry, read_fields r.field_by_index row entry.struct_field_indices)

  -- The entry does not depend on the row.
  new_entry-entry_of :
      (u : IsUniform r) (row : R)
      → new_entry r builder fmtr row ≡ with_values row (entry_of u.shape)
  unfolding new_entry
  new_entry-entry_of u row = simp (u.reflects row, >>=-assoc)

  read_anew :
      (row row' : R) (res : Result (QueryCache I)) (entry : QueryCache I) (vals : List Value)
      → with_values row res ≡ ok (entry, vals)
      → with_values row' res
        ≡ ok (entry, read_fields r.field_by_index row' entry.struct_field_indices)
  read_anew row row' (ok e) entry vals h = ground arith
  read_anew row row' (err e) entry vals h = ground arith

  same_entry :
      (u : IsUniform r) (row row' : R) (entry : QueryCache I) (vals : List Value)
      → new_entry r builder fmtr row ≡ ok (entry, vals)
      → new_entry r builder fmtr row'
        ≡ ok (entry, read_fields r.field_by_index row' entry.struct_field_indices)
  same_entry u row row' entry vals h =
      new_entry-entry_of u row'
      ∙ read_anew row row' _ entry vals (sym (new_entry-entry_of u row) ∙ h)

  abbrev pub SameCall : (p q : (Option Error × Option (QueryCache I)) × World S) → Type 0
  SameCall p q = (p.0.0 ≡ q.0.0) × (p.1 ≡ q.1) × IsCached p.0.1

  anew-IsCached :
      (row : R) (res : Result (QueryCache I × List Value))
      → new_entry r builder fmtr row ≡ res
      → (c : C) (w : World S) → IsCached ((insert_anew conn r builder fmtr c true none res w).0.1)
  anew-IsCached row (err e) h c w = empty
  anew-IsCached row (ok (entry, vals)) h c w = filled row entry vals h

  empty-same :
      (res : Result R) (c : C) (w : World S)
      → SameCall
          (insert_struct conn r builder fmtr c true none none res w)
          (insert_struct conn r builder fmtr c true none none res w)
  empty-same (err e) c w = (refl, refl, empty)
  empty-same (ok row) c w = (refl, refl, anew-IsCached row _ refl c w)

  filled-same :
      (u : IsUniform r) (row' : R) (entry : QueryCache I) (vals : List Value)
      → new_entry r builder fmtr row' ≡ ok (entry, vals)
      → (res : Result R) (c : C) (w : World S)
      → SameCall
          (insert_struct conn r builder fmtr c true (some entry) (some entry) res w)
          (insert_struct conn r builder fmtr c true none none res w)
  filled-same u row' entry vals h (err e) c w = (refl, refl, filled row' entry vals h)
  filled-same u row' entry vals h (ok row) c w =
      let known = sym (same_entry u row' row entry vals h) in
      let anew = λ (res : Result (QueryCache I × List Value)).
        insert_anew conn r builder fmtr c true none res w in
      (ap (λ res. (anew res).0.0) known, ap (λ res. (anew res).1) known, filled row' entry vals h)

  -- With a reflector whose values are the fields as they are, without a wrapper for any, and a slot
  -- of the cache that is empty or that a row of the struct type
  -- has filled, `InsertRowStruct` returns the error and leaves the world that it does with an
  -- empty slot, and the slot after it is again empty or filled by a row of the struct type.
  pub insert_row_struct-IsCached :
      (u : IsUniform r) (slot : Option (QueryCache I))
      → IsCached slot
      → (c : C) (row : R) (w : World S)
      → SameCall
          (insert_row_struct conn r builder fmtr c true slot row w)
          (insert_row_struct conn r builder fmtr c true none row w)
  unfolding insert_row_struct
  insert_row_struct-IsCached u none empty c row w = empty-same (r.deref_struct row) c w
  insert_row_struct-IsCached u (some _) (filled row' entry vals h) c row w =
      filled-same u row' entry vals h (r.deref_struct row) c w
