-- ===== src/Errors/Walk.antt =====
-- What `errors.Is` and `errors.As` find in the errors of errors.go.
use go_sqldb.Prelude.{◌≡◌, refl, arith, inl, inr, true, Option, some, Bytes, Option-cases}
use go_sqldb.Errors.{
  DbError, Violation, integrity, restrict, not_null, foreign_key, unique, check, exclusion,
  violation, with_query, joined, wrapped, driver_error, first_error, is_some, as_violation,
  violation_of, as_driver, as_query, wrap_error_with_query, is_error, hits, Target,
  is_context_canceled, is_query_canceled, no_rows, context_canceled, query_canceled,
  no_database_connection, within_transaction, not_within_transaction, null_value_not_allowed,
  deadlock, serialization_failure, raised_exception, max_num_rows_exceeded, other_error, none,
  false, as_exception, Bool,
}

module _ {D : Type 0} where
  -- When every error that `f` takes has a part that `g` takes, so has every tree.
  module _ {ℓ κ} {A : Type ℓ} {B : Type κ} (f : DbError D → Option A) (g : DbError D → Option B)
      (keeps : (e : DbError D) → is_some (f e) ≡ true → is_some (first_error g e) ≡ true) where
    violation_mono :
        (k : Violation) (constraint : Bytes)
        → is_some (first_error f (violation k constraint)) ≡ true
        → is_some (first_error g (violation k constraint)) ≡ true
    unfolding first_error
    violation_mono integrity constraint h =
        ground
          (arith, keeps (violation integrity constraint), keeps (violation integrity constraint))
    violation_mono restrict constraint h =
        ground
          (arith, keeps (violation restrict constraint), keeps (violation integrity constraint))
    violation_mono not_null constraint h =
        ground
          (arith, keeps (violation not_null constraint), keeps (violation integrity constraint))
    violation_mono foreign_key constraint h =
        ground
          (arith, keeps (violation foreign_key constraint), keeps (violation integrity constraint))
    violation_mono unique constraint h =
        ground (arith, keeps (violation unique constraint), keeps (violation integrity constraint))
    violation_mono check constraint h =
        ground (arith, keeps (violation check constraint), keeps (violation integrity constraint))
    violation_mono exclusion constraint h =
        ground
          (arith, keeps (violation exclusion constraint), keeps (violation integrity constraint))

    first_error_mono :
        (e : DbError D) → is_some (first_error f e) ≡ true → is_some (first_error g e) ≡ true
    unfolding first_error
    first_error_mono (with_query e query) h =
        ground (arith, keeps (with_query e query), first_error_mono e)
    first_error_mono (wrapped text e) h = ground (arith, keeps (wrapped text e), first_error_mono e)
    first_error_mono (joined e e') h =
        ground (arith, keeps (joined e e'), first_error_mono e, first_error_mono e')
    first_error_mono (violation k constraint) h = violation_mono k constraint h
    first_error_mono no_rows h = keeps no_rows h
    first_error_mono context_canceled h = keeps context_canceled h
    first_error_mono query_canceled h = keeps query_canceled h
    first_error_mono no_database_connection h = keeps no_database_connection h
    first_error_mono within_transaction h = keeps within_transaction h
    first_error_mono not_within_transaction h = keeps not_within_transaction h
    first_error_mono null_value_not_allowed h = keeps null_value_not_allowed h
    first_error_mono deadlock h = keeps deadlock h
    first_error_mono serialization_failure h = keeps serialization_failure h
    first_error_mono (raised_exception m) h = keeps (raised_exception m) h
    first_error_mono (max_num_rows_exceeded n) h = keeps (max_num_rows_exceeded n) h
    first_error_mono (driver_error d) h = keeps (driver_error d) h
    first_error_mono (other_error n) h = keeps (other_error n) h

  violation-unwraps :
      (k : Violation) (e : DbError D)
      → is_some (violation_of k e) ≡ true
      → is_some (first_error (violation_of integrity) e) ≡ true
  unfolding first_error
  violation-unwraps k e h = ground arith

  canceled-unwraps :
      (e : DbError D)
      → is_some (hits is_query_canceled e) ≡ true
      → is_some (first_error (hits is_context_canceled) e) ≡ true
  unfolding first_error
  canceled-unwraps e h = ground arith

  -- Whatever violation `errors.As` finds in an error, it also finds an integrity violation in it, and
  -- an error that is a canceled query is also a canceled context for `errors.Is`.
  pub as_violation-integrity :
      (k : Violation) (e : DbError D)
      → (is_some (as_violation k e) ≡ true → is_some (as_violation integrity e) ≡ true)
        × (is_error is_query_canceled e ≡ true → is_error is_context_canceled e ≡ true)
  unfolding as_violation is_error
  as_violation-integrity k e = (
    first_error_mono (violation_of k) (violation_of integrity) (violation-unwraps k) e,
    first_error_mono (hits is_query_canceled) (hits is_context_canceled) canceled-unwraps e,
  )

  -- An error wrapped with its query wraps to itself a second time, carries a query, and is, and is
  -- for `errors.As`, all that it was before.
  pub wrap_error_with_query-keeps :
      (e : DbError D) (query query' : Bytes)
      → (r : DbError D) × (wrap_error_with_query (some e) query ≡ some r)
        × (wrap_error_with_query (some r) query' ≡ some r)
        × (is_some (as_query r) ≡ true)
        × ((target : Target) → is_error target r ≡ is_error target e)
        × ((k : Violation) → as_violation k r ≡ as_violation k e)
        × (as_driver r ≡ as_driver e)
  unfolding wrap_error_with_query as_violation is_error as_query as_driver first_error
  wrap_error_with_query-keeps e query query' = elim (Option-cases (as_query e)) [
    | inl h ↦ (
      with_query e query,
      rw (wrap_error_with_query, h) refl,
      refl,
      refl,
      λ target. ground arith,
      λ k. refl,
      refl,
    )
    | inr (q, h) ↦ (
      e,
      rw (wrap_error_with_query, h) refl,
      rw (wrap_error_with_query, h) refl,
      rw h refl,
      λ target. refl,
      λ k. refl,
      refl,
    )
  ]

  -- No error of package sqldb stands in the error, as in one that a driver returns.
  pub record IsRaw (e : DbError D) : Type 0 where
    pub no_violation : (k : Violation) → as_violation k e ≡ none
    pub no_target : (target : Target) → is_error target e ≡ false
    pub no_exception : as_exception e ≡ none

  module _ (known : D → Option (DbError D)) where
    -- The frame of `wrapKnownErrors`: `errors.As` for the driver's error, and `errors.Join`.
    unfoldable pub join_with : DbError D → DbError D
    join_with e = elim (as_driver e) [
      | none ↦ e
      | some d ↦ elim (known d) [ none ↦ e | some k ↦ joined k e ]
    ]

    pub join_with-none : (e : DbError D) → as_driver e ≡ none → join_with e ≡ e
    unfolding join_with
    join_with-none e h = rw (join_with, h) refl

    pub join_with-some :
        (e : DbError D) (d : D)
        → as_driver e ≡ some d
        → join_with e ≡ elim (known d) [ none ↦ e | some k ↦ joined k e ]
    unfolding join_with
    join_with-some e d h = rw (join_with, h) refl

  -- `errors.As` for the driver's error, and a test of it.
  abbrev pub driver_test : (D → Bool) → DbError D → Bool
  driver_test f e = elim (as_driver e) [ none ↦ false | some d ↦ f d ]

  pub driver_test-none :
      (f : D → Bool) (e : DbError D) → as_driver e ≡ none → false ≡ driver_test f e
  driver_test-none f e h = rw (driver_test, h) refl

  pub driver_test-some :
      (f : D → Bool) (e : DbError D) (d : D) → as_driver e ≡ some d → f d ≡ driver_test f e
  driver_test-some f e d h = rw (driver_test, h) refl
