-- ===== src/Query/Single/Default.antt =====
-- `QueryRowAsOr` of query.go: the default for a missing row.
use go_sqldb.Prelude.{true, false, List, Option, none, some, Bytes, ◌≡◌, refl, ◌∙◌}
use go_sqldb.Value.{Value}
use go_sqldb.Errors.{
  DbError, no_rows, joined, wrap_error_with_query, is_error, is_no_rows, first_error,
}
use go_sqldb.Errors.Walk.{wrap_error_with_query-keeps}
use go_sqldb.Query.{Reply, Querier, closed, join_db_errors}
use go_sqldb.Query.Single.{
  Destination, destination_error, first_row, row_scan, query_row_as, query_row_as_or, scan_row,
}

module _ {D : Type 0} where
  joined-is_no_rows :
      (e' : Option (DbError D))
      → (x : DbError D) × (join_db_errors (some no_rows) e' ≡ some x)
        × (is_error is_no_rows x ≡ true)
  unfolding is_error first_error
  joined-is_no_rows none = (no_rows, refl, refl)
  joined-is_no_rows (some e') = (joined no_rows e', refl, refl)

  wrapped-is_no_rows :
      (e' : Option (DbError D)) (query : Bytes)
      → (x : DbError D) × (wrap_error_with_query (join_db_errors (some no_rows) e') query ≡ some x)
        × (is_error is_no_rows x ≡ true)
  wrapped-is_no_rows e' query =
      let (y, j, h) = joined-is_no_rows e' in
      let (x, w, again, has_query, same, violations, driver) =
        wrap_error_with_query-keeps y query query in
      (x, rw j w, same is_no_rows ∙ h)

module _ {S H D : Type 0} (q : Querier S H D) {T : Type 0}
    (scan_struct : List Bytes → H → S → Reply D T × S) (scan_value : H → S → Reply D T × S)
    (zero_value default_val : T) (dest : Destination) (query : Bytes) (args : List Value)
    (s : S) where
  first_row-missing :
      (t u : S) (h : H) (f : S → (Option T × Option (DbError D)) × S)
      → q.err h t ≡ none
      → q.next h t ≡ (false, u)
      → q.err h u ≡ none
      → first_row q f h t ≡ ((none, some no_rows), u)
  unfolding first_row
  first_row-missing t u h f e n e' = simp (first_row, e, n, e') refl

  row_scan-missing :
      (t u : S) (h : H)
      → destination_error {D = D} dest ≡ none
      → q.err h t ≡ none
      → q.next h t ≡ (false, u)
      → q.err h u ≡ none
      → (x : DbError D) × (row_scan q scan_struct scan_value dest h query t
          ≡ ((none, some x), (q.close h u).1))
        × (is_error is_no_rows x ≡ true)
  unfolding row_scan closed
  row_scan-missing t u h d e n e' =
      let (x, w, m) = wrapped-is_no_rows (q.close h u).0 query in
      let f = first_row-missing t u h (scan_row q scan_struct scan_value dest h) e n e' in
      (x, rw (row_scan, d, f, closed, w) refl, m)

  query_row_as-missing :
      (t u : S) (h : H)
      → destination_error {D = D} dest ≡ none
      → q.query query args s ≡ (h, t)
      → q.err h t ≡ none
      → q.next h t ≡ (false, u)
      → q.err h u ≡ none
      → (x : DbError D) × (query_row_as q scan_struct scan_value zero_value dest query args s
          ≡ ((zero_value, some x), (q.close h u).1))
        × (is_error is_no_rows x ≡ true)
  unfolding query_row_as
  query_row_as-missing t u h d o e n e' =
      let (x, r, m) = row_scan-missing t u h d e n e' in (x, simp (query_row_as, o, r) refl, m)

  -- For a query that gives no row and a destination that can be scanned into, `QueryRowAsOr` returns
  -- the default value without an error and closes the rows, whatever closing them returns.
  pub query_row_as_or-missing :
      (t u : S) (h : H)
      → destination_error {D = D} dest ≡ none
      → q.query query args s ≡ (h, t)
      → q.err h t ≡ none
      → q.next h t ≡ (false, u)
      → q.err h u ≡ none
      → query_row_as_or q scan_struct scan_value zero_value default_val dest query args s
        ≡ ((default_val, none), (q.close h u).1)
  unfolding query_row_as_or
  query_row_as_or-missing t u h d o e n e' =
      let (x, r, m) = query_row_as-missing t u h d o e n e' in simp (query_row_as_or, r, m) refl
