-- ===== src/Insert/Run.antt =====
-- `InsertRowStruct` and `InsertRowStructs` of insert.go.
use go_sqldb.Prelude.{
  ℕ, zero, suc, ◌+◌, ◌*◌, Bool, ◌&&◌, List, [], ◌∷◌, Option, none, some, Bytes, length, leb, ◌==◌,
  if◌then◌else◌, Error, query_error, prepare_error, Result, ok, err,
}
use go_sqldb.Value.{Value}
use go_sqldb.Formatter.{QueryFormatter}
use go_sqldb.Builder.{ColumnInfo, QueryBuilder}
use go_sqldb.Transaction.{Connection, World, Outcome, returned, transaction}
use go_sqldb.Action.{
  Action, ◌>>=◌, ◌>>◌, pure, lift, of_error, to_error, on_store, check_store, as_outcome,
}
use go_sqldb.Insert.{
  Batching, renamed, new_entry, plan_batches, StructReflector, QueryCache, wrap_error_with_query,
  join_errors, read_fields, slice, collect_values,
}

abbrev pub wrapped : (Error → Error) → Option Error → Option Error
wrapped wrap none = none
wrapped wrap (some e) = some (wrap e)

module _ {S C R I : Type 0} (conn : Connection S C) (refl : StructReflector R I)
    (builder : QueryBuilder) (fmtr : QueryFormatter) where
  -- `conn.Exec` and `stmt.Exec` with the error wrapped.
  unfoldable pub exec_wrapped : C → Bytes → List Value → Action S (Unit {0})
  exec_wrapped c query vals =
      check_store (λ s.
        let (e, s') = conn.exec c query vals s in (wrapped (wrap_error_with_query query) e, s'))

  unfoldable pub stmt_exec_wrapped : C → ℕ → Bytes → List Value → Action S (Unit {0})
  stmt_exec_wrapped c stmt query vals = check_store (λ s.
      let (e, s') = conn.stmt_exec c stmt vals s in (wrapped (wrap_error_with_query query) e, s'))

  -- The loop over the full batches on a prepared statement.
  unfoldable pub exec_batches : C → ℕ → Bytes → List R → ℕ → ℕ → ℕ → Action S (Unit {0})
  exec_batches c stmt query rows rows_per_batch zero batch = pure tt
  exec_batches c stmt query rows rows_per_batch (suc n) batch = do
    vals ← lift (
        collect_values refl
          (slice rows (batch * rows_per_batch) (batch * rows_per_batch + rows_per_batch)) [])
    stmt_exec_wrapped c stmt query vals
    exec_batches c stmt query rows rows_per_batch n (batch + 1)

  -- `errors.Join(execErr, stmt.Close())`: the statement is closed after an error, too.
  abbrev pub close_after : C → ℕ → Result (Unit {0}) × World S → Result (Unit {0}) × World S
  close_after c stmt (r, w) =
      let (e, s) = conn.stmt_close c stmt w.store in
      (of_error (join_errors (to_error r) e), record w { store = s })

  unfoldable pub exec_prepared : C → Bytes → List R → ℕ → ℕ → Action S (Unit {0})
  exec_prepared c query rows rows_per_batch n = do
    stmt ← on_store (λ s. let (r, s') = conn.prepare c query s in (renamed prepare_error r, s'))
    (λ w. close_after c stmt (exec_batches c stmt query rows rows_per_batch n 0 w))

  -- A batch that is executed without preparing it.
  unfoldable pub exec_batch : C → Bytes → List R → Action S (Unit {0})
  exec_batch c query rows = do vals ← lift (collect_values refl rows []); exec_wrapped c query vals

  abbrev pub full_batches : C → Bytes → List R → Batching → Action S (Unit {0})
  full_batches c query rows b =
      if leb 2 b.num_full_batches
      then exec_prepared c query rows b.rows_per_batch b.num_full_batches
      else if b.num_full_batches == 1
      then exec_batch c query (slice rows 0 b.rows_per_batch)
      else pure tt

  abbrev pub insert_query : Bytes → List ColumnInfo → ℕ → Action S Bytes
  insert_query table columns n =
      lift (renamed query_error (builder.insert_rows fmtr table columns n))

  abbrev pub insert_remainder :
      Bytes → List ColumnInfo → List R → Batching → C → Action S (Unit {0})
  insert_remainder table columns rows b tx = do
    remainder_query ← insert_query table columns b.num_remainder_rows
    exec_batch tx remainder_query (
        slice rows (b.num_full_batches * b.rows_per_batch)
          (b.num_full_batches * b.rows_per_batch + b.num_remainder_rows))

  -- The function that `InsertRowStructs` runs in a transaction for several batches.
  unfoldable pub insert_batches :
      Bytes → List ColumnInfo → List R → Batching → C → Action S (Unit {0})
  insert_batches table columns rows b tx = do
    full_batch_query ← insert_query table columns b.rows_per_batch
    full_batches tx full_batch_query rows b
    (if b.num_remainder_rows == 0 then pure tt else insert_remainder table columns rows b tx)

  -- All rows in a single statement: `collectValues` comes after the query.
  unfoldable pub insert_single_batch : Bytes → List ColumnInfo → List R → C → Action S (Unit {0})
  insert_single_batch table columns rows c = do
    query ← insert_query table columns (length rows)
    exec_batch c query (slice rows 0 (length rows))

  abbrev pub insert_planned :
      C → Bytes → List ColumnInfo → List R → Batching → World S → Outcome × World S
  insert_planned c table columns rows b =
      if leb b.num_full_batches 1 && b.num_remainder_rows == 0
      then as_outcome (insert_single_batch table columns rows c)
      else transaction conn c none (λ tx. as_outcome (insert_batches table columns rows b tx))

  abbrev pub planned :
      C → List R → World S → Result (Bytes × List ColumnInfo × Batching) → Outcome × World S
  planned c rows w (err e) = (returned (some e), w)
  planned c rows w (ok (table, columns, b)) = insert_planned c table columns rows b w

  -- `InsertRowStruct` behind `derefStruct`. `hit` is the entry that the call may use, `slot` the one
  -- of the cache for the struct type, reflector, builder and formatter of the call.
  abbrev pub insert_anew :
      C
      → Bool
      → Option (QueryCache I)
      → Result (QueryCache I × List Value)
      → World S
      → (Option Error × Option (QueryCache I)) × World S
  insert_anew c use_cache slot (err e) w = ((some e, slot), w)
  insert_anew c use_cache slot (ok (entry, vals)) w =
      let (r, w') = exec_wrapped c entry.query vals w in
      ((to_error r, (if use_cache then some entry else slot)), w')

  abbrev pub insert_struct :
      C
      → Bool
      → Option (QueryCache I)
      → Option (QueryCache I)
      → Result R
      → World S
      → (Option Error × Option (QueryCache I)) × World S
  insert_struct c use_cache hit slot (err e) w = ((some e, slot), w)
  insert_struct c use_cache (some entry) slot (ok struct_val) w =
      let (r, w') =
        exec_wrapped c entry.query
          (read_fields refl.field_by_index struct_val entry.struct_field_indices) w in
      ((to_error r, slot), w')
  insert_struct c use_cache none slot (ok struct_val) w =
      insert_anew c use_cache slot (new_entry refl builder fmtr struct_val) w

  -- Without options of the caller the cache is used. The result holds its slot after the call.
  unfoldable pub insert_row_struct :
      C
      → Bool
      → Option (QueryCache I)
      → R
      → World S
      → (Option Error × Option (QueryCache I)) × World S
  insert_row_struct c use_cache slot row w =
      insert_struct c use_cache (if use_cache then slot else none) slot (refl.deref_struct row) w

  abbrev pub plan : List R → Result (Bytes × List ColumnInfo × Batching)
  plan rows = plan_batches refl fmtr (length rows)

  unfoldable pub insert_row_structs :
      C
      → Bool
      → Option (QueryCache I)
      → List R
      → World S
      → (Outcome × Option (QueryCache I)) × World S
  insert_row_structs c use_cache slot [] w = ((returned none, slot), w)
  insert_row_structs c use_cache slot (row ∷ []) w =
      let ((e, slot'), w') = insert_row_struct c use_cache slot row w in ((returned e, slot'), w')
  insert_row_structs c use_cache slot (row ∷ row' ∷ rows) w =
      let (o, w') = planned c (row ∷ row' ∷ rows) w (plan (row ∷ row' ∷ rows)) in ((o, slot), w')

-- The outcome and the world of such a call, without the slot of the cache.
abbrev pub outcome_of : {S A : Type 0} → (Outcome × A) × World S → Outcome × World S
outcome_of p = (p.0.0, p.1)
