-- ===== src/Query/Callback/Ends.antt =====
-- How the loop with a callback of query.go ends, for rows of which only finitely many are left.
use go_sqldb.Prelude.{
  ℕ, zero, suc, ◌≤◌, ◌<◌, true, false, List, [], ◌∷◌, Option, none, some, Option-cases, Bool-cases,
  ◌≡◌, refl, inl, inr, arith, if◌then◌else◌, Bytes,
}
use go_sqldb.Errors.{DbError}
use go_sqldb.Query.{Reply, got, failed, Reply-cases, Querier, Value}
use go_sqldb.Query.Finish.{IsFinished, join-IsFinished}
use go_sqldb.Query.Outcome.{pair_eq}
use go_sqldb.Query.Callback.{
  FuncType, callback_error, columns_error, scanned_args, is_struct_arg, query_callback,
  query_and_call, call_on_rows, query_struct_callback, callback_rows,
}

module _ {S H D T : Type 0} (q : Querier S H D) (callback : T → S → Option (DbError D) × S)
    (scan : H → S → Reply D T × S) (h : H) where
  -- How many rows are left: `Next` takes one, and neither scanning nor the callback adds any.
  pub record IsFinite (rows_left : S → ℕ) : Type 0 where
    pub next_takes : (s t : S) → q.next h s ≡ (true, t) → rows_left t < rows_left s
    pub scan_keeps : (s : S) → rows_left (scan h s).1 ≤ rows_left s
    pub callback_keeps : (row : T) (s : S) → rows_left (callback row s).1 ≤ rows_left s

  -- Rows for each of which the callback has returned no error.
  pub data Calls : S → List T → S → Type 0 where
    nothing_called : {s : S} → Calls s [] s
    row_called :
        {s t u v w : S} {row : T} {rows : List T}
        → q.next h s ≡ (true, t)
        → q.context_err t ≡ none
        → scan h t ≡ (got row, u)
        → callback row u ≡ (none, v)
        → Calls v rows w
        → Calls s (row ∷ rows) w

  -- How the loop ends behind them.
  pub data Stops (s : S) : Option (DbError D) × S → Type 0 where
    exhausted : {t : S} → q.next h s ≡ (false, t) → Stops s (q.err h t, t)
    cancelled :
        {t : S} {e : DbError D}
        → q.next h s ≡ (true, t)
        → q.context_err t ≡ some e
        → Stops s (some e, t)
    unscanned :
        {t u : S} {e : DbError D}
        → q.next h s ≡ (true, t)
        → q.context_err t ≡ none
        → scan h t ≡ (failed e, u)
        → Stops s (some e, u)
    refused :
        {t u v : S} {row : T} {e : DbError D}
        → q.next h s ≡ (true, t)
        → q.context_err t ≡ none
        → scan h t ≡ (got row, u)
        → callback row u ≡ (some e, v)
        → Stops s (some e, v)

  pub record IsCalled (s : S) (r : Option (DbError D) × S) : Type 0 where
    pub rows : List T
    pub last : S
    pub calls : Calls s rows last
    pub stops : Stops last r

  abbrev pub Ends : S → Option (Option (DbError D) × S) → Type 0
  Ends s o = (r : Option (DbError D) × S) × (o ≡ some r) × IsCalled s r

  Ends-here : (s : S) (r : Option (DbError D) × S) → Stops s r → Ends s (some r)
  Ends-here s r h = (r, refl, record { rows = []; last = s; calls = nothing_called; stops = h })

  Ends-after :
      (row : T) (s t u v : S)
      → q.next h s ≡ (true, t)
      → q.context_err t ≡ none
      → scan h t ≡ (got row, u)
      → callback row u ≡ (none, v)
      → (o : Option (Option (DbError D) × S)) → Ends v o
      → Ends s o
  Ends-after row s t u v n c g k o (r, e, end) = (
    r,
    e,
    record {
      rows = row ∷ end.rows;
      last = end.last;
      calls = row_called n c g k end.calls;
      stops = end.stops;
    },
  )

  -- When finitely many rows are left and the fuel is more than them, the loop returns.
  pub callback_rows-Ends :
      (rows_left : S → ℕ)
      → IsFinite rows_left
      → (fuel : ℕ) (s : S) → rows_left s < fuel
      → Ends s (callback_rows q callback scan h fuel s)
  unfolding callback_rows
  callback_rows-Ends rows_left fin zero s b = absurd (omega (arith, b))
  callback_rows-Ends rows_left fin (suc fuel) s b = elim (Bool-cases (q.next h s).0) [
    | inr n ↦ rw (callback_rows, n) (Ends-here s _ (exhausted (pair_eq _ n)))
    | inl n ↦
        let t = (q.next h s).1 in
        elim (Option-cases (q.context_err t)) [
          | inr (e, c) ↦ rw (callback_rows, n, c) (Ends-here s _ (cancelled (pair_eq _ n) c))
          | inl c ↦ elim (Reply-cases (scan h t).0) [
            | inr (e, g) ↦
                rw (callback_rows, n, c, g)
                  (Ends-here s _ (unscanned (pair_eq _ n) c (pair_eq _ g)))
            | inl (row, g) ↦
                let u = (scan h t).1 in
                elim (Option-cases (callback row u).0) [
                  | inr (e, k) ↦
                      rw (callback_rows, n, c, g, k)
                        (Ends-here s _ (refused (pair_eq _ n) c (pair_eq _ g) (pair_eq _ k)))
                  | inl k ↦
                      Ends-after row s t u (callback row u).1 (pair_eq _ n) c (pair_eq _ g)
                        (pair_eq _ k) _
                        (rw (callback_rows, n, c, g, k)
                          (callback_rows-Ends rows_left fin fuel (callback row u).1 (
                            omega (
                              arith,
                              b,
                              fin.next_takes s t (pair_eq _ n),
                              fin.scan_keeps t,
                              fin.callback_keeps row u,
                            ))))
                ]
          ]
        ]
  ]

module _ {S H D T : Type 0} (q : Querier S H D) (callback : T → S → Option (DbError D) × S)
    (query : Bytes) (args : List Value) (s t : S) (h : H) (columns : List Bytes) where
  query_and_call-Ends :
      (check : List Bytes → Option (DbError D)) (scan : List Bytes → H → S → Reply D T × S)
      → q.query query args s ≡ (h, t)
      → q.columns h t ≡ got columns
      → check columns ≡ none
      → (rows_left : S → ℕ) → IsFinite q callback (scan columns) h rows_left
      → (fuel : ℕ) → rows_left t < fuel
      → (r x : Option (DbError D) × S) × (query_and_call q callback check scan fuel query args s
          ≡ some x)
        × IsFinished q h query r.1 r.0 x
        × IsCalled q callback (scan columns) h t r
  unfolding query_and_call call_on_rows
  query_and_call-Ends check scan o c k rows_left fin fuel b =
      let (r, e, end) = callback_rows-Ends q callback (scan columns) h rows_left fin fuel t b in
      (
        r,
        _,
        simp (query_and_call, call_on_rows, o, c, k, e) refl,
        join-IsFinished q h query r.1 r.0,
        end,
      )

  -- For a struct type, a result with columns and finitely many rows, `QueryStructCallback` returns,
  -- whichever errors the driver, the context and the callback have. It calls the callback with the
  -- scanned rows in their order up to the first error, which is that of `Err` behind the last row,
  -- of the context, of a row that is not scanned, or of the callback, closes the rows, and returns
  -- the error joined with that of `Close` and wrapped in the query.
  pub query_struct_callback-Ends :
      (scan_struct : List Bytes → H → S → Reply D T × S)
      → q.query query args s ≡ (h, t)
      → q.columns h t ≡ got columns
      → (rows_left : S → ℕ) → IsFinite q callback (scan_struct columns) h rows_left
      → (fuel : ℕ) → rows_left t < fuel
      → (r x : Option (DbError D) × S) × (query_struct_callback q callback true scan_struct fuel
            query args s
          ≡ some x)
        × IsFinished q h query r.1 r.0 x
        × IsCalled q callback (scan_struct columns) h t r
  unfolding query_struct_callback
  query_struct_callback-Ends scan_struct o c =
      query_and_call-Ends (λ columns. none) scan_struct o c refl

  -- Let the checks of `QueryCallback` accept the callback, let the columns of the result be as many
  -- as the callback has arguments behind its context, or its one argument be a struct, let only
  -- finitely many rows be left, scanning and the callback add none, and let the fuel be more than
  -- these rows. Then `QueryCallback` returns, whichever errors the driver, the context and the
  -- callback have. It calls the callback with the scanned rows in their order, for each of which the
  -- callback returns no error, up to the first error: that of `Err` behind the last row, of the
  -- context, of a row that is not scanned, or of the callback. Then it calls `Close` once; its error
  -- is joined with the other, either is returned alone where there is only one, and an error without
  -- a query gets the query.
  pub query_callback-Ends :
      (f : FuncType) (scan_struct : List Bytes → H → S → Reply D T × S)
      (scan_values : H → S → Reply D T × S)
      → callback_error {D = D} f ≡ none
      → q.query query args s ≡ (h, t)
      → q.columns h t ≡ got columns
      → columns_error {D = D} (scanned_args f.ins) columns ≡ none
      → (rows_left : S → ℕ)
      → let scan =
          if is_struct_arg (scanned_args f.ins) then scan_struct columns else scan_values in
        IsFinite q callback scan h rows_left
        → (fuel : ℕ) → rows_left t < fuel
        → (r x : Option (DbError D) × S) × (query_callback q callback f scan_struct scan_values fuel
              query args s
            ≡ some x)
          × IsFinished q h query r.1 r.0 x
          × IsCalled q callback scan h t r
  unfolding query_callback
  query_callback-Ends f scan_struct scan_values a o c k rows_left fin fuel b =
      rw (query_callback, a)
        (query_and_call-Ends (columns_error (scanned_args f.ins))
          (λ columns.
            if is_struct_arg (scanned_args f.ins) then scan_struct columns else scan_values)
          o c k rows_left fin fuel b)
