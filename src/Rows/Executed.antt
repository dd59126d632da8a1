-- ===== src/Rows/Executed.antt =====
-- What the frame of Rows has done in its transaction when it returns no error, told of the connection
-- alone: the statement was built and prepared, executed once for each row in their order, and closed.
use mathlib.Core.Path.{subst}
use go_sqldb.Prelude.{ℕ, ◌≡◌, ap, sym, prepare_error, ◌∙◌, List, [], ◌∷◌, none, Bytes, Result, ok}
use go_sqldb.Value.{Value}
use go_sqldb.Builder.{ColumnInfo}
use go_sqldb.Transaction.{Connection, World}
use go_sqldb.Insert.Succeeds.{continue-ok, renamed-ok, wrapped-ok, join_errors-ok}
use go_sqldb.Query.Outcome.{pair_eq}
use go_sqldb.Insert.{renamed, wrap_error_with_query}
use go_sqldb.Action.{Action}
use go_sqldb.Rows.{
  RowMethods, stmt_row, stmt_rows, closed_after, prepared_rows, all_rows, stmt_exec_wrapped,
}

module _ {S C R : Type 0} (conn : Connection S C) (tx : C) where
  -- Each row has values, and the statement is executed with them, without an error.
  pub data RowsRan (row_values : R → Result (List Value)) (stmt : ℕ) : List R → S → S → Type 0 where
    no_row : {s : S} → RowsRan row_values stmt [] s s
    row_ran :
        {row : R} {rows : List R} {args : List Value} {s t u : S}
        → row_values row ≡ ok args
        → conn.stmt_exec tx stmt args s ≡ (none, t)
        → RowsRan row_values stmt rows t u
        → RowsRan row_values stmt (row ∷ rows) s u

  pub record IsExecuted (statement : Result (Bytes × List ColumnInfo))
      (row_values : List ColumnInfo → R → Result (List Value)) (rows : List R) (s u : S)
      : Type 0 where
    pub query : Bytes
    pub columns : List ColumnInfo
    pub stmt : ℕ
    pub first : S
    pub last : S
    pub is_built : statement ≡ ok (query, columns)
    pub is_prepared : conn.prepare tx query s ≡ (ok stmt, first)
    pub all_ran : RowsRan (row_values columns) stmt rows first last
    pub is_closed : conn.stmt_close tx stmt last ≡ (none, u)

module _ {S C R I : Type 0} (conn : Connection S C) (m : RowMethods S C R I) (tx : C) where
  -- The execution of the frame is that of the connection.
  abbrev pub RunsStatement : Type 0
  RunsStatement =
      (stmt : ℕ) (query : Bytes) (args : List Value) (w : World S)
      → (m.stmt_exec tx stmt query args w).0 ≡ ok tt
      → conn.stmt_exec tx stmt args w.store ≡ (none, (m.stmt_exec tx stmt query args w).1.store)

  stmt_rows-RowsRan :
      RunsStatement
      → (stmt : ℕ) (query : Bytes) (columns : List ColumnInfo) (rows : List R) (w : World S)
      → (stmt_rows m tx stmt query columns rows w).0 ≡ ok tt
      → RowsRan conn tx
          (m.row_values columns)
          stmt
          rows
          w.store
          (stmt_rows m tx stmt query columns rows w).1.store
  unfolding stmt_rows stmt_row
  stmt_rows-RowsRan runs stmt query columns [] w h = no_row
  stmt_rows-RowsRan runs stmt query columns (row ∷ rows) w h =
      let (_, ran, rest) =
        continue-ok (λ _. stmt_rows m tx stmt query columns rows)
          (stmt_row m tx stmt query columns row w) h in
      let (args, has_args, call) =
        continue-ok (λ vals. m.stmt_exec tx stmt query vals) (m.row_values columns row, w) ran in
      let executed = runs stmt query args w (ap (λ p. p.0) (sym call) ∙ ran) in
      let loop = λ (v : World S). stmt_rows m tx stmt query columns rows v in
      let next = (m.stmt_exec tx stmt query args w).1 in
      let moved = rest ∙ ap (λ p. loop p.1) call in
      let rest_ran =
        stmt_rows-RowsRan runs stmt query columns rows next (ap (λ p. p.0) (sym moved) ∙ h) in
      subst (λ (u : S). RowsRan conn tx (m.row_values columns) stmt (row ∷ rows) w.store u)
        (ap (λ p. p.1.store) (sym moved)) (row_ran has_args executed rest_ran)

  closed_after-ok :
      (stmt : ℕ) (run : Action S (Unit {0})) (w : World S)
      → (closed_after conn m tx stmt run w).0 ≡ ok tt
      → ((run w).0 ≡ ok tt)
        × (conn.stmt_close tx stmt (run w).1.store
            ≡ (none, (closed_after conn m tx stmt run w).1.store))
  unfolding closed_after
  closed_after-ok stmt run w h =
      let (r, c) = join_errors-ok (run w).0 (conn.stmt_close tx stmt (run w).1.store).0 h in
      (r, pair_eq _ c)

  pub all_rows-IsExecuted :
      RunsStatement
      → (rows : List R) (w : World S) → (all_rows conn m rows tx w).0 ≡ ok tt
      → IsExecuted conn tx m.statement m.row_values rows w.store (all_rows conn m rows tx w).1.store
  unfolding all_rows prepared_rows
  all_rows-IsExecuted runs rows w h =
      let ((query, columns), built, first_call) =
        continue-ok (prepared_rows conn m tx rows) (m.statement, w) h in
      let prepared = conn.prepare tx query w.store in
      let body =
        λ (stmt : ℕ). closed_after conn m tx stmt (stmt_rows m tx stmt query columns rows) in
      let begun = record w { store = prepared.1 } in
      let (stmt, has_stmt, second_call) =
        continue-ok body (renamed prepare_error prepared.0, begun)
          (ap (λ p. p.0) (sym first_call) ∙ h) in
      let moved = first_call ∙ second_call in
      let (ran, closes) =
        closed_after-ok stmt (stmt_rows m tx stmt query columns rows) begun
          (ap (λ p. p.0) (sym moved) ∙ h) in
      record {
        query = query;
        columns = columns;
        stmt = stmt;
        first = prepared.1;
        last = (stmt_rows m tx stmt query columns rows begun).1.store;
        is_built = built;
        is_prepared = pair_eq prepared (renamed-ok prepare_error prepared.0 has_stmt);
        all_ran = stmt_rows-RowsRan runs stmt query columns rows begun ran;
        is_closed = closes ∙ ap (λ p. (none, p.1.store)) (sym moved);
      }

-- The executions of the frame with the error wrapped.
pub stmt_exec_wrapped-ok :
    {S C : Type 0} (conn : Connection S C) (tx : C) (stmt : ℕ) (query : Bytes) (args : List Value)
    (w : World S)
    → (stmt_exec_wrapped conn tx stmt query args w).0 ≡ ok tt
    → conn.stmt_exec tx stmt args w.store
      ≡ (none, (stmt_exec_wrapped conn tx stmt query args w).1.store)
unfolding stmt_exec_wrapped
stmt_exec_wrapped-ok conn tx stmt query args w h =
    pair_eq _ (wrapped-ok (wrap_error_with_query query) (conn.stmt_exec tx stmt args w.store).0 h)
