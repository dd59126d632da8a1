-- ===== src/Rows.antt =====
-- The frame that update.go, upsert.go and delete.go share: a row struct with the query cache, and row
-- structs in a transaction with a prepared statement. The files differ in what `RowMethods` holds.
pub mod Cache
pub mod Loop
pub mod Atomic
pub mod Executed
use go_sqldb.Prelude.{
  ℕ, Bool, List, [], ◌∷◌, Option, none, some, Bytes, if◌then◌else◌, Error, prepare_error, Result,
  ok, err,
}
use go_sqldb.Value.{Value}
use go_sqldb.Builder.{ColumnInfo}
use go_sqldb.Transaction.{Connection, World, Outcome, returned, transaction}
use go_sqldb.Action.{
  check_store, Action, ◌>>=◌, ◌>>◌, pure, lift, to_error, of_error, on_store, as_outcome,
}
use go_sqldb.Insert.Run.{wrapped}
use go_sqldb.Insert.{
  wrap_error_with_query, StructReflector, QueryCache, read_fields, renamed, join_errors,
}

-- What a file does with its row structs: how it makes the cached query and the values of a row, the
-- query of the prepared statement with its columns, the values that it executes this with, and the
-- two executions with their errors wrapped.
pub record RowMethods (S C R I : Type 0) : Type 0 where
  pub reflector : StructReflector R I
  pub entry : R → Result (QueryCache I × List Value)
  pub statement : Result (Bytes × List ColumnInfo)
  pub row_values : List ColumnInfo → R → Result (List Value)
  pub exec : C → Bytes → List Value → Action S (Unit {0})
  pub stmt_exec : C → ℕ → Bytes → List Value → Action S (Unit {0})

-- `conn.Exec` and `stmt.Exec` with the error wrapped.
module _ {S C : Type 0} (conn : Connection S C) where
  unfoldable pub exec_wrapped : C → Bytes → List Value → Action S (Unit {0})
  exec_wrapped c query vals =
      check_store (λ s.
        let (e, s') = conn.exec c query vals s in (wrapped (wrap_error_with_query query) e, s'))

  unfoldable pub stmt_exec_wrapped : C → ℕ → Bytes → List Value → Action S (Unit {0})
  stmt_exec_wrapped c stmt query vals = check_store (λ s.
      let (e, s') = conn.stmt_exec c stmt vals s in (wrapped (wrap_error_with_query query) e, s'))

module _ {S C R I : Type 0} (m : RowMethods S C R I) where
  -- The function that the prepared statement is called with, for one row.
  unfoldable pub stmt_row : C → ℕ → Bytes → List ColumnInfo → R → Action S (Unit {0})
  stmt_row c stmt query columns row = do
    vals ← lift (m.row_values columns row)
    m.stmt_exec c stmt query vals

  unfoldable pub stmt_rows : C → ℕ → Bytes → List ColumnInfo → List R → Action S (Unit {0})
  stmt_rows c stmt query columns [] = pure tt
  stmt_rows c stmt query columns (row ∷ rows) = do
    stmt_row c stmt query columns row
    stmt_rows c stmt query columns rows

module _ {S C R I : Type 0} (conn : Connection S C) (m : RowMethods S C R I) where
  -- Behind `derefStruct`, with the entry that the call may use and the slot of the cache.
  abbrev pub row_anew :
      C
      → Bool
      → Option (QueryCache I)
      → Result (QueryCache I × List Value)
      → World S
      → (Option Error × Option (QueryCache I)) × World S
  row_anew c use_cache slot (err e) w = ((some e, slot), w)
  row_anew c use_cache slot (ok (entry, vals)) w =
      let (r, w') = m.exec c entry.query vals w in
      ((to_error r, (if use_cache then some entry else slot)), w')

  abbrev pub struct_row :
      C
      → Bool
      → Option (QueryCache I)
      → Option (QueryCache I)
      → Result R
      → World S
      → (Option Error × Option (QueryCache I)) × World S
  struct_row c use_cache hit slot (err e) w = ((some e, slot), w)
  struct_row c use_cache (some entry) slot (ok struct_val) w =
      let (r, w') =
        m.exec c entry.query
          (read_fields m.reflector.field_by_index struct_val entry.struct_field_indices) w in
      ((to_error r, slot), w')
  struct_row c use_cache none slot (ok struct_val) w =
      row_anew c use_cache slot (m.entry struct_val) w

  unfoldable pub row_struct :
      C
      → Bool
      → Option (QueryCache I)
      → R
      → World S
      → (Option Error × Option (QueryCache I)) × World S
  row_struct c use_cache slot row w =
      struct_row c use_cache (if use_cache then slot else none) slot (m.reflector.deref_struct row)
        w

  -- `errors.Join(err, closeStmt())`
  unfoldable pub closed_after : C → ℕ → Action S (Unit {0}) → Action S (Unit {0})
  closed_after c stmt run w =
      let (r, w') = run w in
      let (e, s) = conn.stmt_close c stmt w'.store in
      (of_error (join_errors (to_error r) e), record w' { store = s })

  unfoldable pub prepared_rows : C → List R → Bytes × List ColumnInfo → Action S (Unit {0})
  prepared_rows tx rows (query, columns) = do
    stmt ← on_store (λ s. let (r, s') = conn.prepare tx query s in (renamed prepare_error r, s'))
    closed_after tx stmt (stmt_rows m tx stmt query columns rows)

  -- The function that runs in the transaction; the statement is closed in any case.
  unfoldable pub all_rows : List R → C → Action S (Unit {0})
  all_rows rows tx = lift m.statement >>= prepared_rows tx rows

  unfoldable pub row_structs :
      C
      → Bool
      → Option (QueryCache I)
      → List R
      → World S
      → (Outcome × Option (QueryCache I)) × World S
  row_structs c use_cache slot [] w = ((returned none, slot), w)
  row_structs c use_cache slot (row ∷ []) w =
      let ((e, slot'), w') = row_struct c use_cache slot row w in ((returned e, slot'), w')
  row_structs c use_cache slot (row ∷ row' ∷ rows) w =
      let (o, w') =
        transaction conn c none (λ tx. as_outcome (all_rows (row ∷ row' ∷ rows) tx)) w in
      ((o, slot), w')
