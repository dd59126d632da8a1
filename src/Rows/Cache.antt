-- ===== src/Rows/Cache.antt =====
-- The query cache of the frame in Rows: a call with the cached entry does what one without it does.
use go_sqldb.Prelude.{
  ◌≡◌, refl, ◌∙◌, sym, ap, arith, true, Option, none, some, List, Error, Result, ok, err, ◌>>=◌,
}
use go_sqldb.Value.{Value}
use go_sqldb.Transaction.{Connection, World}
use go_sqldb.Insert.{QueryCache, read_fields}
use go_sqldb.Rows.{RowMethods, row_struct, struct_row, row_anew}

module _ {S C R I : Type 0} (conn : Connection S C) (m : RowMethods S C R I) where
  abbrev pub with_values : R → Result (QueryCache I) → Result (QueryCache I × List Value)
  with_values row res = do
    cached ← res
    ok (cached, read_fields m.reflector.field_by_index row cached.struct_field_indices)

  -- The entry does not depend on the row, whose values are the fields at its indices.
  pub record IsUniformEntry : Type 0 where
    pub shared : Result (QueryCache I)
    pub entry_of : (row : R) → m.entry row ≡ with_values row shared

  -- An empty slot of the cache, or one that a row of the struct type has filled.
  pub data IsFilled : Option (QueryCache I) → Type 0 where
    empty : IsFilled none
    filled :
        (row : R) (cached : QueryCache I) (vals : List Value)
        → m.entry row ≡ ok (cached, vals)
        → IsFilled (some cached)

  read_anew :
      (row row' : R) (res : Result (QueryCache I)) (cached : QueryCache I) (vals : List Value)
      → with_values row res ≡ ok (cached, vals)
      → with_values row' res
        ≡ ok (cached, read_fields m.reflector.field_by_index row' cached.struct_field_indices)
  read_anew row row' (ok e) cached vals h = ground arith
  read_anew row row' (err e) cached vals h = ground arith

  abbrev pub SameCall :
      (Option Error × Option (QueryCache I)) × World S
      → (Option Error × Option (QueryCache I)) × World S
      → Type 0
  SameCall p q = (p.0.0 ≡ q.0.0) × (p.1 ≡ q.1) × IsFilled p.0.1

  anew-IsFilled :
      (row : R) (res : Result (QueryCache I × List Value))
      → m.entry row ≡ res
      → (c : C) (w : World S) → IsFilled ((row_anew conn m c true none res w).0.1)
  anew-IsFilled row (err e) h c w = empty
  anew-IsFilled row (ok (cached, vals)) h c w = filled row cached vals h

  empty-same :
      (res : Result R) (c : C) (w : World S)
      → SameCall
          (struct_row conn m c true none none res w)
          (struct_row conn m c true none none res w)
  empty-same (err e) c w = (refl, refl, empty)
  empty-same (ok row) c w = (refl, refl, anew-IsFilled row _ refl c w)

  filled-same :
      (u : IsUniformEntry) (row' : R) (cached : QueryCache I) (vals : List Value)
      → m.entry row' ≡ ok (cached, vals)
      → (res : Result R) (c : C) (w : World S)
      → SameCall
          (struct_row conn m c true (some cached) (some cached) res w)
          (struct_row conn m c true none none res w)
  filled-same u row' cached vals h (err e) c w = (refl, refl, filled row' cached vals h)
  filled-same u row' cached vals h (ok row) c w =
      let known =
        u.entry_of row ∙ read_anew row' row u.shared cached vals (sym (u.entry_of row') ∙ h) in
      let anew = λ (res : Result (QueryCache I × List Value)). row_anew conn m c true none res w in
      (
        ap (λ res. (anew res).0.0) (sym known),
        ap (λ res. (anew res).1) (sym known),
        filled row' cached vals h,
      )

  pub row_struct-same :
      (u : IsUniformEntry) (slot : Option (QueryCache I))
      → IsFilled slot
      → (c : C) (row : R) (w : World S)
      → SameCall (row_struct conn m c true slot row w) (row_struct conn m c true none row w)
  unfolding row_struct
  row_struct-same u none empty c row w = empty-same (m.reflector.deref_struct row) c w
  row_struct-same u (some _) (filled row' cached vals h) c row w =
      filled-same u row' cached vals h (m.reflector.deref_struct row) c w
