-- ===== src/Insert/Executed.antt =====
-- What `InsertRowStructs` has done in its transaction when it returns no error, told of the
-- connection alone: each batch of the rows was executed, and the statement of the full ones closed.
use mathlib.Core.Path.{subst}
use go_sqldb.Prelude.{
  ℕ, zero, suc, ◌+◌, ◌*◌, ◌≤◌, ◌≡◌, ◌≢◌, ap, sym, ◌∙◌, arith, Bool-cases, List, [], none, Bytes,
  leb, ◌==◌, Result, ok, query_error, prepare_error, inl, inr, if◌then◌else◌,
}
use go_sqldb.Value.{Value}
use go_sqldb.Formatter.{QueryFormatter}
use go_sqldb.Builder.{ColumnInfo, QueryBuilder}
use go_sqldb.Transaction.{Connection, World}
use go_sqldb.Action.{Action, pure, continue}
use go_sqldb.Query.Outcome.{pair_eq}
use go_sqldb.Insert.{
  StructReflector, Batching, collect_values, slice, renamed, wrap_error_with_query,
}
use go_sqldb.Insert.Run.{
  exec_wrapped, stmt_exec_wrapped, exec_batches, exec_prepared, exec_batch, full_batches,
  insert_remainder, insert_batches, close_after,
}
use go_sqldb.Insert.Succeeds.{continue-ok, renamed-ok, wrapped-ok, join_errors-ok}

module _ {S C R I : Type 0} (conn : Connection S C) (r : StructReflector R I) (tx : C) where
  -- The prepared statement is executed with the values of `n` batches, from the given one on.
  pub data BatchesRan (rows : List R) (rows_per_batch stmt : ℕ) : ℕ → ℕ → S → S → Type 0 where
    no_batch : {batch : ℕ} {s : S} → BatchesRan rows rows_per_batch stmt zero batch s s
    batch_ran :
        {n batch : ℕ} {args : List Value} {s t u : S}
        → collect_values r
            (slice rows (batch * rows_per_batch) (batch * rows_per_batch + rows_per_batch))
            []
          ≡ ok args
        → conn.stmt_exec tx stmt args s ≡ (none, t)
        → BatchesRan rows rows_per_batch stmt n (batch + 1) t u
        → BatchesRan rows rows_per_batch stmt (suc n) batch s u

  -- The query is executed with the values of the rows.
  pub record IsExecutedOnce (query : Bytes) (rows : List R) (s u : S) : Type 0 where
    pub args : List Value
    pub are_values : collect_values r rows [] ≡ ok args
    pub has_run : conn.exec tx query args s ≡ (none, u)

  -- The full batches: none, one that is executed, or several with a prepared statement.
  pub data FullRan (query : Bytes) (rows : List R) (b : Batching) : S → S → Type 0 where
    none_full : {s : S} → b.num_full_batches ≡ 0 → FullRan query rows b s s
    one_full :
        {s u : S}
        → b.num_full_batches ≡ 1
        → IsExecutedOnce query (slice rows 0 b.rows_per_batch) s u
        → FullRan query rows b s u
    several_full :
        {s t u v : S} {stmt : ℕ}
        → 2 ≤ b.num_full_batches
        → conn.prepare tx query s ≡ (ok stmt, t)
        → BatchesRan rows b.rows_per_batch stmt b.num_full_batches 0 t u
        → conn.stmt_close tx stmt u ≡ (none, v)
        → FullRan query rows b s v

  module _ (builder : QueryBuilder) (fmtr : QueryFormatter) (table : Bytes)
      (columns : List ColumnInfo) where
    -- The rows behind the full batches, with a query of their number.
    pub data RemainderRan (rows : List R) (b : Batching) : S → S → Type 0 where
      no_remainder : {s : S} → b.num_remainder_rows ≡ 0 → RemainderRan rows b s s
      remainder_ran :
          {s u : S} {query : Bytes}
          → b.num_remainder_rows ≢ 0
          → builder.insert_rows fmtr table columns b.num_remainder_rows ≡ ok query
          → IsExecutedOnce query
              (slice rows
                (b.num_full_batches * b.rows_per_batch)
                (b.num_full_batches * b.rows_per_batch + b.num_remainder_rows))
              s
              u
          → RemainderRan rows b s u

    pub record IsInserted (rows : List R) (b : Batching) (s u : S) : Type 0 where
      pub query : Bytes
      pub behind_full : S
      pub is_built : builder.insert_rows fmtr table columns b.rows_per_batch ≡ ok query
      pub full_ran : FullRan query rows b s behind_full
      pub remainder : RemainderRan rows b behind_full u

module _ {S C R I : Type 0} (conn : Connection S C) (r : StructReflector R I)
    (builder : QueryBuilder) (fmtr : QueryFormatter) (tx : C) where
  exec_batch-IsExecutedOnce :
      (query : Bytes) (rows : List R) (w : World S)
      → (exec_batch conn r builder fmtr tx query rows w).0 ≡ ok tt
      → IsExecutedOnce conn r tx query rows w.store
          (exec_batch conn r builder fmtr tx query rows w).1.store
  unfolding exec_batch exec_wrapped
  exec_batch-IsExecutedOnce query rows w h =
      let (args, has_args, call) =
        continue-ok (exec_wrapped conn r builder fmtr tx query) (collect_values r rows [], w) h in
      let ran = conn.exec tx query args w.store in
      record {
        args = args;
        are_values = has_args;
        has_run =
            pair_eq ran
              (wrapped-ok (wrap_error_with_query query) ran.0 (ap (λ p. p.0) (sym call) ∙ h))
            ∙ ap (λ p. (none, p.1.store)) (sym call);
      }

  exec_batches-BatchesRan :
      (stmt : ℕ) (query : Bytes) (rows : List R) (k n batch : ℕ) (w : World S)
      → (exec_batches conn r builder fmtr tx stmt query rows k n batch w).0 ≡ ok tt
      → BatchesRan conn r tx rows k stmt n batch w.store
          (exec_batches conn r builder fmtr tx stmt query rows k n batch w).1.store
  unfolding exec_batches stmt_exec_wrapped
  exec_batches-BatchesRan stmt query rows k zero batch w h = no_batch
  exec_batches-BatchesRan stmt query rows k (suc n) batch w h =
      let exec = λ (args : List Value). stmt_exec_wrapped conn r builder fmtr tx stmt query args in
      let loop = exec_batches conn r builder fmtr tx stmt query rows k n (batch + 1) in
      let batch_rows = slice rows (batch * k) (batch * k + k) in
      let (args, has_args, first_call) =
        continue-ok (λ args w'. continue (λ _. loop) (exec args w'))
          (collect_values r batch_rows [], w) h in
      let (_, ran, second_call) =
        continue-ok (λ _. loop) (exec args w) (ap (λ p. p.0) (sym first_call) ∙ h) in
      let moved = first_call ∙ second_call in
      let done = conn.stmt_exec tx stmt args w.store in
      subst (λ (u : S). BatchesRan conn r tx rows k stmt (suc n) batch w.store u)
        (ap (λ p. p.1.store) (sym moved))
        (batch_ran has_args (pair_eq done (wrapped-ok (wrap_error_with_query query) done.0 ran)) (
          exec_batches-BatchesRan stmt query rows k n (batch + 1) (exec args w).1
            (ap (λ p. p.0) (sym moved) ∙ h)))

  close_after-ok :
      (stmt : ℕ) (p : Result (Unit {0}) × World S)
      → (close_after conn r builder fmtr tx stmt p).0 ≡ ok tt
      → (p.0 ≡ ok tt)
        × (conn.stmt_close tx stmt p.1.store
            ≡ (none, (close_after conn r builder fmtr tx stmt p).1.store))
  close_after-ok stmt p h =
      let (ran, closes) = join_errors-ok p.0 (conn.stmt_close tx stmt p.1.store).0 h in
      (ran, pair_eq _ closes)

  exec_prepared-FullRan :
      (query : Bytes) (rows : List R) (b : Batching) (w : World S)
      → 2 ≤ b.num_full_batches
      → let action =
          exec_prepared conn r builder fmtr tx query rows b.rows_per_batch b.num_full_batches in
        (action w).0 ≡ ok tt → FullRan conn r tx query rows b w.store (action w).1.store
  unfolding exec_prepared
  exec_prepared-FullRan query rows b w several h =
      let prepared = conn.prepare tx query w.store in
      let begun = record w { store = prepared.1 } in
      let batches = λ (stmt : ℕ) (w' : World S).
        exec_batches conn r builder fmtr tx stmt query rows b.rows_per_batch b.num_full_batches 0
          w' in
      let (stmt, has_stmt, call) =
        continue-ok (λ stmt w'. close_after conn r builder fmtr tx stmt (batches stmt w'))
          (renamed prepare_error prepared.0, begun) h in
      let (ran, closes) = close_after-ok stmt (batches stmt begun) (ap (λ p. p.0) (sym call) ∙ h) in
      several_full several (pair_eq prepared (renamed-ok prepare_error prepared.0 has_stmt))
        (exec_batches-BatchesRan stmt query rows b.rows_per_batch b.num_full_batches 0 begun ran)
        (closes ∙ ap (λ p. (none, p.1.store)) (sym call))

  full_batches-FullRan :
      (query : Bytes) (rows : List R) (b : Batching) (w : World S)
      → (full_batches conn r builder fmtr tx query rows b w).0 ≡ ok tt
      → FullRan conn r tx query rows b w.store
          (full_batches conn r builder fmtr tx query rows b w).1.store
  full_batches-FullRan query rows b w = elim (Bool-cases (leb 2 b.num_full_batches)) [
    | inl several ↦ rw several (exec_prepared-FullRan query rows b w (ground (arith, several)))
    | inr few ↦ elim (Bool-cases (b.num_full_batches == 1)) [
      | inl one ↦
          rw (few, one)
            (λ h.
              one_full (ground (arith, one))
                (exec_batch-IsExecutedOnce query (slice rows 0 b.rows_per_batch) w h))
      | inr more ↦ rw (few, more) (λ h. none_full (ground (arith, few, more)))
    ]
  ]

  module _ (table : Bytes) (columns : List ColumnInfo) (rows : List R) (b : Batching) where
    insert_remainder-RemainderRan :
        (w : World S)
        → b.num_remainder_rows ≢ 0
        → (insert_remainder conn r builder fmtr table columns rows b tx w).0 ≡ ok tt
        → RemainderRan conn r tx builder fmtr table columns rows b w.store
            (insert_remainder conn r builder fmtr table columns rows b tx w).1.store
    insert_remainder-RemainderRan w n h =
        let behind =
          slice rows (b.num_full_batches * b.rows_per_batch)
            (b.num_full_batches * b.rows_per_batch + b.num_remainder_rows) in
        let built = builder.insert_rows fmtr table columns b.num_remainder_rows in
        let (query, has_query, call) =
          continue-ok (λ query. exec_batch conn r builder fmtr tx query behind)
            (renamed query_error built, w) h in
        subst (λ (u : S). RemainderRan conn r tx builder fmtr table columns rows b w.store u)
          (ap (λ p. p.1.store) (sym call))
          (remainder_ran n (renamed-ok query_error built has_query)
            (exec_batch-IsExecutedOnce query behind w (ap (λ p. p.0) (sym call) ∙ h)))

    abbrev rest : Action S (Unit {0})
    rest =
        if b.num_remainder_rows == 0
        then pure tt
        else insert_remainder conn r builder fmtr table columns rows b tx

    rest-RemainderRan :
        (w : World S)
        → (rest w).0 ≡ ok tt
        → RemainderRan conn r tx builder fmtr table columns rows b w.store (rest w).1.store
    rest-RemainderRan w = elim (Bool-cases (b.num_remainder_rows == 0)) [
      | inl nothing ↦ rw nothing (λ h. no_remainder (ground (arith, nothing)))
      | inr some_rows ↦ rw some_rows (insert_remainder-RemainderRan w (ground (arith, some_rows)))
    ]

    pub insert_batches-IsInserted :
        (w : World S)
        → (insert_batches conn r builder fmtr table columns rows b tx w).0 ≡ ok tt
        → IsInserted conn r tx builder fmtr table columns rows b w.store
            (insert_batches conn r builder fmtr table columns rows b tx w).1.store
    unfolding insert_batches
    insert_batches-IsInserted w h =
        let built = builder.insert_rows fmtr table columns b.rows_per_batch in
        let full = λ (query : Bytes). full_batches conn r builder fmtr tx query rows b in
        let (query, has_query, first_call) =
          continue-ok (λ query w'. continue (λ _. rest) (full query w'))
            (renamed query_error built, w) h in
        let (_, ran, second_call) =
          continue-ok (λ _. rest) (full query w) (ap (λ p. p.0) (sym first_call) ∙ h) in
        let moved = first_call ∙ second_call in
        subst (λ (u : S). IsInserted conn r tx builder fmtr table columns rows b w.store u)
          (ap (λ p. p.1.store) (sym moved))
          (record {
            query = query;
            behind_full = (full query w).1.store;
            is_built = renamed-ok query_error built has_query;
            full_ran = full_batches-FullRan query rows b w ran;
            remainder = rest-RemainderRan (full query w).1 (ap (λ p. p.0) (sym moved) ∙ h);
          })
