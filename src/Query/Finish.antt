-- ===== src/Query/Finish.antt =====
-- How query.go finishes a query: the rows are closed, the error of `Close` is joined, and the query
-- is added to the error if there is one that has none.
use go_sqldb.Prelude.{Option, none, some, Option-cases, Bytes, ◌≡◌, inl, inr}
use go_sqldb.Errors.{DbError, joined, with_query, as_query, wrap_error_with_query}
use go_sqldb.Query.{Querier, join_db_errors}
use go_sqldb.Query.Outcome.{pair_eq}

-- An error with the query: one that has a query stays as it is.
pub data IsWrapped {D : Type 0} (query : Bytes) (e : DbError D) : Option (DbError D) → Type 0 where
  has_query : {first : Bytes} → as_query e ≡ some first → IsWrapped query e (some e)
  lacks_query : as_query e ≡ none → IsWrapped query e (some (with_query e query))

pub wrap_error_with_query-IsWrapped :
    {D : Type 0} (e : DbError D) (query : Bytes)
    → IsWrapped query e (wrap_error_with_query (some e) query)
unfolding wrap_error_with_query
wrap_error_with_query-IsWrapped e query = elim (Option-cases (as_query e)) [
  | inl h ↦ rw (wrap_error_with_query, h) (lacks_query h)
  | inr (first, h) ↦ rw (wrap_error_with_query, h) (has_query h)
]

module _ {S H D : Type 0} (q : Querier S H D) (h : H) (query : Bytes) (s : S) where
  -- What is returned of the error that was found in state `s`, and the state behind it: `Close` is
  -- called once, the errors are joined, and the result is wrapped.
  pub data IsFinished : Option (DbError D) → Option (DbError D) × S → Type 0 where
    nothing_failed : {t : S} → q.close h s ≡ (none, t) → IsFinished none (none, t)
    reading_failed :
        {t : S} {e : DbError D} {x : Option (DbError D)}
        → q.close h s ≡ (none, t)
        → IsWrapped query e x
        → IsFinished (some e) (x, t)
    closing_failed :
        {t : S} {e : DbError D} {x : Option (DbError D)}
        → q.close h s ≡ (some e, t)
        → IsWrapped query e x
        → IsFinished none (x, t)
    both_failed :
        {t : S} {e e' : DbError D} {x : Option (DbError D)}
        → q.close h s ≡ (some e', t)
        → IsWrapped query (joined e e') x
        → IsFinished (some e) (x, t)

  pub join-IsFinished :
      (e : Option (DbError D))
      → let (e', t) = q.close h s in
        IsFinished e (wrap_error_with_query (join_db_errors e e') query, t)
  unfolding wrap_error_with_query
  join-IsFinished e = elim (Option-cases (q.close h s).0) [
    | inl c ↦ elim (Option-cases e) [
      | inl n ↦ rw (n, c) (nothing_failed (pair_eq _ c))
      | inr (x, n) ↦
          rw (n, c) (reading_failed (pair_eq _ c) (wrap_error_with_query-IsWrapped x query))
    ]
    | inr (y, c) ↦ elim (Option-cases e) [
      | inl n ↦ rw (n, c) (closing_failed (pair_eq _ c) (wrap_error_with_query-IsWrapped y query))
      | inr (x, n) ↦
          rw (n, c) (both_failed (pair_eq _ c) (wrap_error_with_query-IsWrapped (joined x y) query))
    ]
  ]
