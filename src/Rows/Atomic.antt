-- ===== src/Rows/Atomic.antt =====
-- Row structs of the frame in Rows, two or more outside a transaction: all of them or none.
use go_sqldb.Prelude.{ok, ℕ, ◌≡◌, refl, ◌∙◌, false, List, [], ◌∷◌, Option, none, Bytes, Bool}
use go_sqldb.Value.{Value}
use go_sqldb.Builder.{ColumnInfo}
use go_sqldb.Transaction.{transaction, Connection, World, active}
use go_sqldb.Transaction.Atomicity.{
  IsTransactional, AllOrNothing, AllRanOrNothing, isolated_transaction-AllOrNothing,
}
use go_sqldb.Action.{Action, lift, as_outcome}
use go_sqldb.Insert.{QueryCache}
use go_sqldb.Insert.Atomic.{
  transaction-AllRanOrNothing, Hidden, >>=-Hidden, pure-Hidden, continue-Hidden,
}
use go_sqldb.Rows.{
  RowMethods, stmt_row, stmt_rows, closed_after, prepared_rows, all_rows, row_structs,
}

module _ {S C V R I : Type 0} (conn : Connection S C) (view : S → V) (m : RowMethods S C R I) where
  -- Nobody else sees what the statements of the frame do in a transaction.
  pub record IsPrivateRows : Type 0 where
    pub prepare_keeps : (c : C) (query : Bytes) (s : S) → view (conn.prepare c query s).1 ≡ view s
    pub stmt_close_keeps : (c : C) (stmt : ℕ) (s : S) → view (conn.stmt_close c stmt s).1 ≡ view s
    pub stmt_exec_keeps :
        (c : C) (stmt : ℕ) (query : Bytes) (args : List Value)
        → Hidden conn view (m.stmt_exec c stmt query args)

  module _ (law : IsPrivateRows) where
    stmt_rows-Hidden :
        (c : C) (stmt : ℕ) (query : Bytes) (columns : List ColumnInfo) (rows : List R)
        → Hidden conn view (stmt_rows m c stmt query columns rows)
    unfolding stmt_rows stmt_row
    stmt_rows-Hidden c stmt query columns [] = pure-Hidden conn view tt
    stmt_rows-Hidden c stmt query columns (row ∷ rows) =
        >>=-Hidden conn view (stmt_row m c stmt query columns row) _
          (>>=-Hidden conn view (lift (m.row_values columns row)) _ (λ w. refl)
            (λ vals. law.stmt_exec_keeps c stmt query vals))
          (λ _. stmt_rows-Hidden c stmt query columns rows)

    closed_after-Hidden :
        (c : C) (stmt : ℕ) (run : Action S (Unit {0}))
        → Hidden conn view run
        → Hidden conn view (closed_after conn m c stmt run)
    unfolding closed_after
    closed_after-Hidden c stmt run h w = law.stmt_close_keeps c stmt (run w).1.store ∙ h w

    prepared_rows-Hidden :
        (tx : C) (rows : List R) (plan : Bytes × List ColumnInfo)
        → Hidden conn view (prepared_rows conn m tx rows plan)
    unfolding prepared_rows
    prepared_rows-Hidden tx rows (query, columns) w =
        continue-Hidden conn view
          (λ stmt. closed_after conn m tx stmt (stmt_rows m tx stmt query columns rows))
          (λ stmt. closed_after-Hidden tx stmt _ (stmt_rows-Hidden tx stmt query columns rows)) _
        ∙ law.prepare_keeps tx query w.store

    all_rows-Hidden : (rows : List R) (tx : C) → Hidden conn view (all_rows conn m rows tx)
    unfolding all_rows
    all_rows-Hidden rows tx =
        >>=-Hidden conn view (lift m.statement) (prepared_rows conn m tx rows) (λ w. refl)
          (prepared_rows-Hidden tx rows)

  pub row_structs-AllOrNothing :
      (pending : C → S → V)
      → IsTransactional conn view pending
      → IsPrivateRows
      → (c : C) (use_cache : Bool) (slot : Option (QueryCache I)) (row row' : R) (rows : List R)
        (w : World S)
      → active (conn.transaction c) ≡ false
      → AllOrNothing conn view pending
          (λ tx. as_outcome (all_rows conn m (row ∷ row' ∷ rows) tx))
          w
          (let (r, w') = row_structs conn m c use_cache slot (row ∷ row' ∷ rows) w in (r.0, w'))
  unfolding row_structs transaction
  row_structs-AllOrNothing pending law private c use_cache slot row row' rows w outside =
      rw outside (
        isolated_transaction-AllOrNothing conn view pending law c none
          (λ tx. as_outcome (all_rows conn m (row ∷ row' ∷ rows) tx)) w
          λ tx w'. all_rows-Hidden private (row ∷ row' ∷ rows) tx w')

  -- What the transaction has done is told by `ran`, which holds when all rows run without an error.
  pub row_structs-AllRanOrNothing :
      (pending : C → S → V) (ran : C → S → S → Type 0)
      → IsTransactional conn view pending
      → IsPrivateRows
      → (c : C) (use_cache : Bool) (slot : Option (QueryCache I)) (row row' : R) (rows : List R)
        (w : World S)
      → active (conn.transaction c) ≡ false
      → ((tx : C) (begun : World S)
          → (all_rows conn m (row ∷ row' ∷ rows) tx begun).0 ≡ ok tt
          → ran tx begun.store (all_rows conn m (row ∷ row' ∷ rows) tx begun).1.store)
      → AllRanOrNothing conn view pending c none ran w
          (let (r, w') = row_structs conn m c use_cache slot (row ∷ row' ∷ rows) w in (r.0, w'))
  unfolding row_structs
  row_structs-AllRanOrNothing pending ran law private c use_cache slot row row' rows w outside h =
      transaction-AllRanOrNothing conn view pending law c ran (all_rows conn m (row ∷ row' ∷ rows))
        w outside (λ tx w'. all_rows-Hidden private (row ∷ row' ∷ rows) tx w') h
