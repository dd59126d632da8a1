-- ===== src/Query/Answer.antt =====
-- What `QueryRowsAsSlice`, `QueryRowsAsMapSlice` and `QueryRowsAsStrings` of query.go return.
use go_sqldb.Prelude.{
  ◌+◌, Bool, List, [], Option, none, some, Option-cases, Bytes, ◌≡◌, refl, inl, inr, arith,
}
use go_sqldb.Value.{Value}
use go_sqldb.Errors.{DbError}
use go_sqldb.Query.{
  Reply, got, failed, Reply-cases, Querier, ℤ, row_limit, closed, read_rows, query_rows,
  check_columns, scan_as, no_check, headed, scan_map, query_rows_as_slice, query_rows_as_map_slice,
  query_rows_as_strings,
}
use go_sqldb.Query.Finish.{IsFinished, join-IsFinished}
use go_sqldb.Query.Outcome.{IsEnd, each_row-Ends}

module _ {S H D : Type 0} (q : Querier S H D) {T : Type 0} (check : List Bytes → Option (DbError D))
    (scan : List Bytes → H → S → Reply D T × S) (max_num_rows : ℤ) where
  -- What is read from rows before they are closed.
  pub data Answer (h : H) (s : S) : (List T × Option (DbError D)) × S → Type 0 where
    without_columns : {e : DbError D} → q.columns h s ≡ failed e → Answer h s (([], some e), s)
    refused_columns :
        {columns : List Bytes} {e : DbError D}
        → q.columns h s ≡ got columns
        → check columns ≡ some e
        → Answer h s (([], some e), s)
    with_columns :
        {columns : List Bytes} {r : (List T × Option (DbError D)) × S}
        → q.columns h s ≡ got columns
        → check columns ≡ none
        → IsEnd q (scan columns) h (row_limit max_num_rows) [] s r
        → Answer h s r

  pub read_rows-Answer :
      (h : H) (s : S)
      → (r : (List T × Option (DbError D)) × S) × (read_rows q check scan max_num_rows h s ≡ some r)
        × Answer h s r
  unfolding read_rows
  read_rows-Answer h s = elim (Reply-cases (q.columns h s)) [
    | inr (e, c) ↦ ((([], some e), s), rw (read_rows, c) refl, without_columns c)
    | inl (columns, c) ↦ elim (Option-cases (check columns)) [
      | inr (e, k) ↦ ((([], some e), s), rw (read_rows, c, k) refl, refused_columns c k)
      | inl k ↦
          let max = row_limit max_num_rows in
          let (r, o, end) =
            each_row-Ends q (scan columns) h max (max + 1) [] s (omega arith) (omega arith) in
          (r, rw (read_rows, c, k) o, with_columns c k end)
    ]
  ]

  pub query_rows-Answer :
      (query : Bytes) (args : List Value) (s : S)
      → let (h, t) = q.query query args s in
        (r : (List T × Option (DbError D)) × S) × (e : Option (DbError D)) × (u : S) × (query_rows q
            check scan max_num_rows query args s
          ≡ some ((r.0.0, e), u))
        × IsFinished q h query r.1 r.0.1 (e, u)
        × Answer h t r
  unfolding query_rows closed
  query_rows-Answer query args s =
      let (h, t) = q.query query args s in
      let (r, e, a) = read_rows-Answer h t in
      (r, _, _, rw (query_rows, e) refl, join-IsFinished q h query r.1 r.0.1, a)

module _ {S H D : Type 0} (q : Querier S H D) (max_num_rows : ℤ) (query : Bytes) (args : List Value)
    (s : S) where
  -- Whatever the driver does, `QueryRowsAsSlice` returns after at most one row more than the limit,
  -- and closes the rows. It returns the rows it has scanned, which are as many as the limit allows,
  -- with the error of `Columns`, that of several columns for a value, that of a further row than the
  -- limit, that of the context, that of the row that was not scanned, or, behind the last row, that
  -- of `Err`. From the state behind these, `Close` is called once; its error is joined with the
  -- other, either is returned alone where there is only one, and an error without a query gets the
  -- query.
  pub query_rows_as_slice-Answer :
      {T : Type 0} (row_structs : Bool) (scan_struct : List Bytes → H → S → Reply D T × S)
      (scan_value : H → S → Reply D T × S)
      → let (h, t) = q.query query args s in
        (r : (List T × Option (DbError D)) × S) × (e : Option (DbError D)) × (u : S)
        × (query_rows_as_slice q row_structs scan_struct scan_value max_num_rows query args s
            ≡ some ((r.0.0, e), u))
        × IsFinished q h query r.1 r.0.1 (e, u)
        × Answer q
            (check_columns row_structs)
            (scan_as row_structs scan_struct scan_value)
            max_num_rows
            h
            t
            r
  unfolding query_rows_as_slice
  query_rows_as_slice-Answer row_structs scan_struct scan_value =
      query_rows-Answer q (check_columns row_structs) (scan_as row_structs scan_struct scan_value)
        max_num_rows query args s

  pub query_rows_as_map_slice-Answer :
      {V : Type 0} (converter : Option (V → Option V)) (scan : H → S → Reply D (List V) × S)
      → let (h, t) = q.query query args s in
        (r : (List (List (Bytes × V)) × Option (DbError D)) × S) × (e : Option (DbError D))
        × (u : S) × (query_rows_as_map_slice q converter scan max_num_rows query args s
            ≡ some ((r.0.0, e), u))
        × IsFinished q h query r.1 r.0.1 (e, u)
        × Answer q no_check (scan_map converter scan) max_num_rows h t r
  unfolding query_rows_as_map_slice
  query_rows_as_map_slice-Answer converter scan =
      query_rows-Answer q no_check (scan_map converter scan) max_num_rows query args s

  pub query_rows_as_strings-Answer :
      (scan : H → S → Reply D (List Bytes) × S)
      → let (h, t) = q.query query args s in
        (r : (List (List Bytes) × Option (DbError D)) × S) × (e : Option (DbError D)) × (u : S)
        × (query_rows_as_strings q scan max_num_rows query args s
            ≡ some ((headed (q.columns h t) r.0.0, e), u))
        × IsFinished q h query r.1 r.0.1 (e, u)
        × Answer q no_check (λ columns. scan) max_num_rows h t r
  unfolding query_rows_as_strings closed
  query_rows_as_strings-Answer scan =
      let (h, t) = q.query query args s in
      let (r, e, a) = read_rows-Answer q no_check (λ columns. scan) max_num_rows h t in
      (r, _, _, rw (query_rows_as_strings, e) refl, join-IsFinished q h query r.1 r.0.1, a)
