-- ===== src/Errors.antt =====
-- The errors of errors.go as trees that `errors.Is` and `errors.As` walk: the sentinel errors, the
-- constraint violations, the errors that wrap others, and an error of the driver.
pub mod Messages
pub mod Walk
pub mod Postgres
pub mod Mysql
pub mod Mssql
pub mod Oracle
pub mod Sqlite
use go_sqldb.Prelude.{ℕ, Bool, true, false, ◌||◌, Option, none, some, Bytes, if◌then◌else◌}

-- The violations; each but `integrity` unwraps to `integrity` with its constraint.
pub data Violation : Type 0 where
  integrity restrict not_null foreign_key unique check exclusion : Violation

unfoldable pub Violation-discrete : Discrete Violation
Violation-discrete = hlevel

-- An error of the driver is of type `D`, with `*pq.Error` and the like as instances.
pub data DbError (D : Type 0) : Type 0 where
  -- `sql.ErrNoRows` and `context.Canceled`
  no_rows context_canceled : DbError D
  query_canceled : DbError D
  no_database_connection within_transaction not_within_transaction : DbError D
  null_value_not_allowed deadlock serialization_failure : DbError D
  raised_exception : Bytes → DbError D
  violation : Violation → Bytes → DbError D
  max_num_rows_exceeded : ℕ → DbError D
  -- `errWithQuery`, without the arguments and the formatter
  with_query : DbError D → Bytes → DbError D
  -- `errors.Join` of two errors, and `fmt.Errorf` with `%w`
  joined : DbError D → DbError D → DbError D
  wrapped : Bytes → DbError D → DbError D
  driver_error : D → DbError D
  other_error : ℕ → DbError D

abbrev pub or_else {ℓ} : {A : Type ℓ} → Option A → Option A → Option A
or_else none q = q
or_else (some a) q = some a

abbrev pub is_some {ℓ} : {A : Type ℓ} → Option A → Bool
is_some none = false
is_some (some a) = true

-- What the violation unwraps to.
abbrev pub unwrap_violation : {D : Type 0} → Violation → Bytes → Option (DbError D)
unwrap_violation integrity constraint = none
unwrap_violation _ constraint = some (violation integrity constraint)

-- The errors that `errors.Is` is asked for.
pub data Target : Type 0 where
  is_no_rows is_context_canceled is_query_canceled : Target
  is_deadlock is_serialization_failure is_null_value_not_allowed : Target

module _ {D : Type 0} where
  -- The walk of `errors.As`: the first error of the tree, from the root, that `f` takes.
  unfoldable pub first_error {ℓ} : {A : Type ℓ} → (DbError D → Option A) → DbError D → Option A
  first_error f (with_query e query) = or_else (f (with_query e query)) (first_error f e)
  first_error f (wrapped text e) = or_else (f (wrapped text e)) (first_error f e)
  first_error f (joined e e') =
      or_else (f (joined e e')) (or_else (first_error f e) (first_error f e'))
  first_error f (violation k constraint) =
      or_else (f (violation k constraint))
        (elim (unwrap_violation {D = D} k constraint) [ none ↦ none | some e ↦ f e ])
  first_error f e = f e

  abbrev driver_of : DbError D → Option D
  driver_of (driver_error d) = some d
  driver_of _ = none

  -- `errors.As` for the driver's error.
  unfoldable pub as_driver : DbError D → Option D
  as_driver = first_error driver_of

  abbrev pub violation_of : Violation → DbError D → Option Bytes
  violation_of k (violation k' constraint) = elim (Violation-discrete k k') [
    | yes _ ↦ some constraint
    | no _ ↦ none
  ]
  violation_of k _ = none

  -- `errors.As` for one of the violation types, with its constraint.
  unfoldable pub as_violation : Violation → DbError D → Option Bytes
  as_violation k = first_error (violation_of k)

  abbrev query_of : DbError D → Option Bytes
  query_of (with_query e query) = some query
  query_of _ = none

  -- `errors.As` for `errWithQuery`.
  unfoldable pub as_query : DbError D → Option Bytes
  as_query = first_error query_of

  abbrev pub exception_of : DbError D → Option Bytes
  exception_of (raised_exception message) = some message
  exception_of _ = none

  -- `errors.As` for `ErrRaisedException`.
  unfoldable pub as_exception : DbError D → Option Bytes
  as_exception = first_error exception_of

  -- `err == target`, or the method `Is` of `errQueryCanceled`.
  abbrev hits : Target → DbError D → Option (Unit {0})
  hits is_no_rows no_rows = some tt
  hits is_context_canceled context_canceled = some tt
  hits is_context_canceled query_canceled = some tt
  hits is_query_canceled query_canceled = some tt
  hits is_deadlock deadlock = some tt
  hits is_serialization_failure serialization_failure = some tt
  hits is_null_value_not_allowed null_value_not_allowed = some tt
  hits _ _ = none

  -- `errors.Is`
  unfoldable pub is_error : Target → DbError D → Bool
  is_error target e = is_some (first_error (hits target) e)

  unfoldable pub replace_err_no_rows : Option (DbError D) → Option (DbError D) → Option (DbError D)
  replace_err_no_rows none replacement = none
  replace_err_no_rows (some e) replacement = if is_error is_no_rows e then replacement else some e

  unfoldable pub is_other_than_err_no_rows : Option (DbError D) → Bool
  is_other_than_err_no_rows none = false
  is_other_than_err_no_rows (some e) = if is_error is_no_rows e then false else true

  unfoldable pub wrap_error_with_query : Option (DbError D) → Bytes → Option (DbError D)
  wrap_error_with_query none query = none
  wrap_error_with_query (some e) query = elim (as_query e) [
    | some q ↦ some e
    | none ↦ some (with_query e query)
  ]
