-- ===== src/Query/Complete.antt =====
-- `QueryRowsAsSlice` of query.go on rows that can all be scanned.
use go_sqldb.Prelude.{
  ℕ, zero, suc, ◌+◌, ◌≤◌, ◌<◌, leb, length, length-append, Bool, true, false, List, [], ◌∷◌, ◌++◌,
  append_assoc, append-nil, Option, none, some, Bytes, ◌≡◌, refl, ap, sym, ◌∙◌, arith,
}
use go_sqldb.Value.{Value}
use go_sqldb.Errors.{DbError, max_num_rows_exceeded}
use go_sqldb.Query.{
  Reply, got, Querier, ℤ, row_limit, closed, refusal, each_row, read_rows, query_rows,
  check_columns, scan_as, query_rows_as_slice,
}
use go_sqldb.Query.Finish.{IsFinished, join-IsFinished}
use go_sqldb.Query.Outcome.{Reads, nothing_read, row_read}

module _ {S H D : Type 0} (q : Querier S H D) {T : Type 0} (scan : H → S → Reply D T × S) (max : ℕ)
    (h : H) where
  refusal-none :
      (rows : List T) (t : S)
      → length rows < max
      → q.context_err t ≡ none
      → refusal q scan max h rows t ≡ none
  unfolding refusal
  refusal-none rows t l c =
      let b : leb max (length rows) ≡ false = ground arith in rw (refusal, b) c

  refusal-capped :
      (rows : List T) (t : S)
      → max ≤ length rows
      → refusal q scan max h rows t ≡ some (max_num_rows_exceeded max)
  unfolding refusal
  refusal-capped rows t l =
      let b : leb max (length rows) ≡ true = ground arith in rw (refusal, b) refl

  -- The loop over rows that can be scanned goes on behind the last of them.
  each_row-Reads :
      (fuel : ℕ) (before rows : List T) (s last : S)
      → Reads q scan h s rows last
      → length before + length rows ≤ max
      → length rows < fuel
      → (x : Option ((List T × Option (DbError D)) × S))
      → ((f : ℕ) → each_row q scan max h (suc f) (before ++ rows) last ≡ x)
      → each_row q scan max h fuel before s ≡ x
  unfolding each_row
  each_row-Reads zero before rows s last r b l x e = absurd (omega (arith, l))
  each_row-Reads (suc fuel) before [] s last nothing_read b l x e =
      ap (λ rows. each_row q scan max h (suc fuel) rows s) (sym (append-nil before)) ∙ e fuel
  each_row-Reads (suc fuel) before (row ∷ rows) s last (row_read {t = t} {u = u} n c g r) b l x e =
      simp (each_row, n, refusal-none before t (omega (arith, b)) c, g)
        (each_row-Reads fuel (before ++ row ∷ []) rows u last r
          (omega (arith, b, length-append before (row ∷ []))) (omega (arith, l)) x
          (λ f. rw (append_assoc before (row ∷ []) rows) (e f)))

  pub each_row-all :
      (rows : List T) (s last u : S)
      → Reads q scan h s rows last
      → q.next h last ≡ (false, u)
      → length rows ≤ max
      → each_row q scan max h (max + 1) [] s ≡ some ((rows, q.err h u), u)
  unfolding each_row
  each_row-all rows s last u r n b =
      each_row-Reads (max + 1) [] rows s last r (omega (arith, b)) (omega (arith, b)) _
        (λ f. simp (each_row, n) refl)

  pub each_row-capped :
      (rows : List T) (s last u : S)
      → Reads q scan h s rows last
      → q.next h last ≡ (true, u)
      → length rows ≡ max
      → each_row q scan max h (max + 1) [] s ≡ some ((rows, some (max_num_rows_exceeded max)), u)
  unfolding each_row
  each_row-capped rows s last u r n b =
      each_row-Reads (max + 1) [] rows s last r (omega (arith, b)) (omega (arith, b)) _
        (λ f. simp (each_row, n, refusal-capped rows u (omega (arith, b))) refl)

module _ {S H D : Type 0} (q : Querier S H D) {T : Type 0} (row_structs : Bool)
    (scan_struct : List Bytes → H → S → Reply D T × S) (scan_value : H → S → Reply D T × S)
    (max_num_rows : ℤ) (query : Bytes) (args : List Value) (columns : List Bytes) (rows : List T)
    (s t last u : S) (h : H) where
  abbrev slice : Option ((List T × Option (DbError D)) × S)
  slice = query_rows_as_slice q row_structs scan_struct scan_value max_num_rows query args s

  abbrev scan : H → S → Reply D T × S
  scan = scan_as row_structs scan_struct scan_value columns

  -- When the columns fit the type, all rows can be scanned while the context is open, and there are
  -- no more than the limit allows, `QueryRowsAsSlice` returns them all in their order and calls
  -- `Close` once, behind the last row. The error is none when neither `Err` behind the last row nor
  -- `Close` gives one; otherwise it is theirs, joined when there are both, with the query added to an
  -- error that has none.
  pub query_rows_as_slice-all :
      q.query query args s ≡ (h, t)
      → q.columns h t ≡ got columns
      → check_columns {D = D} row_structs columns ≡ none
      → Reads q scan h t rows last
      → q.next h last ≡ (false, u)
      → length rows ≤ row_limit max_num_rows
      → (e : Option (DbError D)) × (v : S) × (slice ≡ some ((rows, e), v))
        × IsFinished q h query u (q.err h u) (e, v)
  unfolding query_rows_as_slice query_rows read_rows closed
  query_rows_as_slice-all o c k r n b = (
    _,
    _,
    simp
        (
          query_rows_as_slice,
          query_rows,
          read_rows,
          o,
          c,
          k,
          each_row-all q scan (row_limit max_num_rows) h rows t last u r n b,
        )
        refl,
    join-IsFinished q h query u (q.err h u),
  )

  -- When there is a further row behind as many as the limit allows, `QueryRowsAsSlice` returns these
  -- with the error that the limit is exceeded, finished as the others are.
  pub query_rows_as_slice-capped :
      q.query query args s ≡ (h, t)
      → q.columns h t ≡ got columns
      → check_columns {D = D} row_structs columns ≡ none
      → Reads q scan h t rows last
      → q.next h last ≡ (true, u)
      → length rows ≡ row_limit max_num_rows
      → (e : Option (DbError D)) × (v : S) × (slice ≡ some ((rows, e), v))
        × IsFinished q h query u (some (max_num_rows_exceeded (row_limit max_num_rows))) (e, v)
  unfolding query_rows_as_slice query_rows read_rows closed
  query_rows_as_slice-capped o c k r n b = (
    _,
    _,
    simp
        (
          query_rows_as_slice,
          query_rows,
          read_rows,
          o,
          c,
          k,
          each_row-capped q scan (row_limit max_num_rows) h rows t last u r n b,
        )
        refl,
    join-IsFinished q h query u (some (max_num_rows_exceeded (row_limit max_num_rows))),
  )
