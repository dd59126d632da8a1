-- ===== src/Rows/Loop.antt =====
-- The rows of a prepared statement one after the other: the first error ends the loop.
use go_sqldb.Prelude.{ℕ, ◌≡◌, refl, ap, List, [], ◌∷◌, ◌++◌, Bytes, Error, Result, ok, err}
use go_sqldb.Builder.{ColumnInfo}
use go_sqldb.Transaction.{World}
use go_sqldb.Action.{continue}
use go_sqldb.Rows.{RowMethods, stmt_row, stmt_rows}

module _ {S C R I : Type 0} (m : RowMethods S C R I) (c : C) (stmt : ℕ) (query : Bytes)
    (columns : List ColumnInfo) where
  -- Every row of the list is executed without an error, from the first world to the last.
  pub data Runs : List R → World S → World S → Type 0 where
    done : {w : World S} → Runs [] w w
    row_done :
        {row : R} {rows : List R} {w w' v : World S}
        → stmt_row m c stmt query columns row w ≡ (ok tt, w')
        → Runs rows w' v
        → Runs (row ∷ rows) w v

  -- The result of a loop, with what it has done: all rows, or the rows before the first error.
  pub data Ends (rows : List R) (w : World S) : Result (Unit {0}) × World S → Type 0 where
    all_done : {v : World S} → Runs rows w v → Ends rows w (ok tt, v)
    failed :
        (before : List R) (row : R) (after : List R) {v v' : World S} {e : Error}
        → rows ≡ before ++ row ∷ after
        → Runs before w v
        → stmt_row m c stmt query columns row v ≡ (err e, v')
        → Ends rows w (err e, v')

  Ends-next :
      (row : R) (rows : List R) (w w' : World S)
      → stmt_row m c stmt query columns row w ≡ (ok tt, w')
      → (res : Result (Unit {0}) × World S) → Ends rows w' res
      → Ends (row ∷ rows) w res
  Ends-next row rows w w' h res (all_done r) = all_done (row_done h r)
  Ends-next row rows w w' h res (failed before row' after e r f) =
      failed (row ∷ before) row' after (ap (λ (l : List R). row ∷ l) e) (row_done h r) f

  step-Ends :
      (row : R) (rows : List R) (w : World S)
      → ((w' : World S) → Ends rows w' (stmt_rows m c stmt query columns rows w'))
      → (res : Result (Unit {0}) × World S) → stmt_row m c stmt query columns row w ≡ res
      → Ends (row ∷ rows) w (continue (λ _. stmt_rows m c stmt query columns rows) res)
  step-Ends row rows w rest (err e, w') h = failed [] row rows refl done h
  step-Ends row rows w rest (ok _, w') h = Ends-next row rows w w' h _ (rest w')

  -- The loop ends without an error after all rows, or with the error of the first row that fails,
  -- after the rows before it and without one behind it.
  pub stmt_rows-Ends :
      (rows : List R) (w : World S) → Ends rows w (stmt_rows m c stmt query columns rows w)
  unfolding stmt_rows
  stmt_rows-Ends [] w = all_done done
  stmt_rows-Ends (row ∷ rows) w =
      step-Ends row rows w (stmt_rows-Ends rows) (stmt_row m c stmt query columns row w) refl
