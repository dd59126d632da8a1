-- ===== src/Delete/Missing.antt =====
-- A row that `DeleteRowStructs` of delete.go does not find.
use go_sqldb.Prelude.{
  ℕ, ◌≡◌, refl, ◌∙◌, List, ◌∷◌, ◌++◌, some, Bytes, ok, err, no_rows, with_query, Result,
}
use go_sqldb.Value.{Value}
use go_sqldb.Formatter.{QueryFormatter}
use go_sqldb.Builder.{ColumnInfo, QueryBuilder}
use go_sqldb.Transaction.{Connection, World}
use go_sqldb.Action.{Action, to_error, of_error}
use go_sqldb.Insert.{StructReflector, wrap_error_with_query, join_errors}
use go_sqldb.Rows.{RowMethods, stmt_row, stmt_rows, all_rows, prepared_rows, closed_after}
use go_sqldb.Rows.Loop.{Runs, done, row_done}
use go_sqldb.Delete.{RowsAffected, delete_methods, delete_values, delete_statement, affected}

stmt_rows-append :
    {S C R I : Type 0} (m : RowMethods S C R I) (c : C) (stmt : ℕ) (query : Bytes)
    (columns : List ColumnInfo) {before : List R} (rest : List R) {w v : World S}
    → Runs m c stmt query columns before w v
    → stmt_rows m c stmt query columns (before ++ rest) w ≡ stmt_rows m c stmt query columns rest v
unfolding stmt_rows
stmt_rows-append m c stmt query columns rest done = refl
stmt_rows-append m c stmt query columns rest (row_done h r) =
    rw h (stmt_rows-append m c stmt query columns rest r)

module _ {S C R I : Type 0} (conn : Connection S C) (m : RowMethods S C R I) where
  all_rows-prepared :
      (tx : C) (stmt : ℕ) (query : Bytes) (columns : List ColumnInfo) (rows : List R) (w : World S)
      (s : S)
      → m.statement ≡ ok (query, columns)
      → conn.prepare tx query w.store ≡ (ok stmt, s)
      → all_rows conn m rows tx w
        ≡ closed_after conn m tx stmt
            (stmt_rows m tx stmt query columns rows)
            (record w { store = s })
  unfolding all_rows prepared_rows
  all_rows-prepared tx stmt query columns rows w s hq hp = simp (hq, hp) refl

  closed_after-result :
      (c : C) (stmt : ℕ) (run : Action S (Unit {0})) (w : World S)
      {res : Result (Unit {0}) × World S}
      → run w ≡ res
      → closed_after conn m c stmt run w ≡ (
        of_error (join_errors (to_error res.0) (conn.stmt_close c stmt res.1.store).0),
        record res.1 { store = (conn.stmt_close c stmt res.1.store).1 },
      )
  unfolding closed_after
  closed_after-result c stmt run w h = rw h refl

module _ {S C R I : Type 0} (conn : Connection S C) (rows : RowsAffected S C)
    (r : StructReflector R I) (builder : QueryBuilder) (fmtr : QueryFormatter) where
  missing_row :
      (c : C) (stmt : ℕ) (query : Bytes) (columns : List ColumnInfo) (row : R) (after : List R)
      (v : World S) (args : List Value) (s : S)
      → delete_values r builder fmtr row ≡ ok args
      → rows.stmt_exec_rows_affected c stmt args v.store ≡ (ok 0, s)
      → stmt_rows (delete_methods conn rows r builder fmtr) c stmt query columns (row ∷ after) v
        ≡ (err (with_query query no_rows), record v { store = s })
  unfolding stmt_rows stmt_row affected wrap_error_with_query
  missing_row c stmt query columns row after v args s hv hd = rw (hv, hd) refl

  -- When the statement is prepared and the rows before it are deleted, a row that the statement does
  -- not find ends the loop of `DeleteRowStructs` with `sql.ErrNoRows` wrapped in the query; no row
  -- behind it is tried, and the statement is closed, whose error is joined.
  pub delete_rows-missing :
      (tx : C) (stmt : ℕ) (query : Bytes) (columns : List ColumnInfo) (before : List R) (row : R)
      (after : List R) (w v : World S) (args : List Value) (s s' : S)
      → delete_statement r builder fmtr ≡ ok (query, columns)
      → conn.prepare tx query w.store ≡ (ok stmt, s)
      → Runs
          (delete_methods conn rows r builder fmtr)
          tx
          stmt
          query
          columns
          before
          (record w { store = s })
          v
      → delete_values r builder fmtr row ≡ ok args
      → rows.stmt_exec_rows_affected tx stmt args v.store ≡ (ok 0, s')
      → all_rows conn (delete_methods conn rows r builder fmtr) (before ++ row ∷ after) tx w ≡ (
        of_error (join_errors (some (with_query query no_rows)) (conn.stmt_close tx stmt s').0),
        record v { store = (conn.stmt_close tx stmt s').1 },
      )
  delete_rows-missing tx stmt query columns before row after w v args s s' hq hp runs hv hd =
      let looped =
        stmt_rows-append (delete_methods conn rows r builder fmtr) tx stmt query columns
          (row ∷ after) runs
        ∙ missing_row tx stmt query columns row after v args s' hv hd in
      all_rows-prepared conn (delete_methods conn rows r builder fmtr) tx stmt query columns
        (before ++ row ∷ after) w s hq hp
      ∙ closed_after-result conn (delete_methods conn rows r builder fmtr) tx stmt _ _ looped
