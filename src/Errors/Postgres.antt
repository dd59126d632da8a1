-- ===== src/Errors/Postgres.antt =====
-- pqconn/errors.go: how the driver's error is joined with one of package sqldb. The codes of
-- lib/pq's package pqerror that the file names are constructors, any other code is `other_code`.
pub mod Agreed
use go_sqldb.Prelude.{
  ◌≡◌, refl, ◌∙◌, arith, inl, inr, Bool, true, false, List, [], ◌∷◌, Option, none, some, Bytes,
  Option-cases, ◌≢◌,
}
use go_sqldb.Errors.{
  DbError, Violation, integrity, restrict, not_null, foreign_key, unique, check, exclusion,
  violation, joined, first_error, is_some, as_violation, as_driver, as_exception, is_error,
  is_deadlock, is_serialization_failure, is_query_canceled, is_context_canceled, Target,
  is_null_value_not_allowed, null_value_not_allowed, deadlock, serialization_failure,
  query_canceled, raised_exception, Target,
}
use go_sqldb.Errors.Walk.{IsRaw}
use go_sqldb.Errors.Messages.{contains_name}

pub data Code : Type 0 where
  null_value_not_allowed_code : Code
  integrity_constraint_violation restrict_violation not_null_violation : Code
  foreign_key_violation unique_violation check_violation exclusion_violation : Code
  deadlock_detected tr_serialization_failure query_canceled_code raise_exception : Code
  other_code : Code

pub Code-discrete : Discrete Code
Code-discrete = hlevel

-- The fields of `pq.Error` that the file reads.
pub record PqError : Type 0 where
  pub code : Code
  pub message : Bytes
  pub constraint : Bytes

-- The cases of `wrapKnownErrors`.
abbrev pub known_error : Code → Bytes → Bytes → Option (DbError PqError)
known_error null_value_not_allowed_code message constraint = some null_value_not_allowed
known_error integrity_constraint_violation message constraint =
    some (violation integrity constraint)
known_error restrict_violation message constraint = some (violation restrict constraint)
known_error not_null_violation message constraint = some (violation not_null constraint)
known_error foreign_key_violation message constraint = some (violation foreign_key constraint)
known_error unique_violation message constraint = some (violation unique constraint)
known_error check_violation message constraint = some (violation check constraint)
known_error deadlock_detected message constraint = some deadlock
known_error tr_serialization_failure message constraint = some serialization_failure
known_error query_canceled_code message constraint = some query_canceled
known_error exclusion_violation message constraint = some (violation exclusion constraint)
known_error raise_exception message constraint = some (raised_exception message)
known_error other_code message constraint = none

-- `wrapKnownErrors` for an error that is not nil.
unfoldable pub join_known : DbError PqError → DbError PqError
join_known e = elim (as_driver e) [
  | none ↦ e
  | some d ↦ elim (known_error d.code d.message d.constraint) [ none ↦ e | some k ↦ joined k e ]
]

unfoldable pub wrap_known_errors : Option (DbError PqError) → Option (DbError PqError)
wrap_known_errors none = none
wrap_known_errors (some e) = some (join_known e)

-- `pq.As(err, code)`: the first `pq.Error` of the tree, if it has the code.
unfoldable pub pq_as : Code → DbError PqError → Option PqError
pq_as code e = elim (as_driver e) [
  | none ↦ none
  | some d ↦ elim (Code-discrete d.code code) [ yes _ ↦ some d | no _ ↦ none ]
]

unfoldable pub is_restrict_violation : DbError PqError → Bool
is_restrict_violation e = is_some (pq_as restrict_violation e)

unfoldable pub is_not_null_violation : DbError PqError → Bool
is_not_null_violation e = is_some (pq_as not_null_violation e)

abbrev pub matches_names : List Bytes → Option PqError → Bool
matches_names names none = false
matches_names [] (some d) = true
matches_names (n ∷ names) (some d) = contains_name (n ∷ names) d.constraint

unfoldable pub is_foreign_key_violation : DbError PqError → List Bytes → Bool
is_foreign_key_violation e violated_constraints =
    matches_names violated_constraints (pq_as foreign_key_violation e)

unfoldable pub is_unique_violation : DbError PqError → Bool
is_unique_violation e = is_some (pq_as unique_violation e)

unfoldable pub is_check_violation : DbError PqError → Bool
is_check_violation e = is_some (pq_as check_violation e)

unfoldable pub is_exclusion_violation : DbError PqError → Bool
is_exclusion_violation e = is_some (pq_as exclusion_violation e)

unfoldable pub is_serialization_failure_error : DbError PqError → Bool
is_serialization_failure_error e = is_some (pq_as tr_serialization_failure e)

unfoldable pub is_deadlock_detected : DbError PqError → Bool
is_deadlock_detected e = is_some (pq_as deadlock_detected e)

unfoldable pub is_query_canceled_error : DbError PqError → Bool
is_query_canceled_error e = is_some (pq_as query_canceled_code e)

unfoldable pub get_raised_exception : DbError PqError → Bytes
get_raised_exception e = elim (pq_as raise_exception e) [ none ↦ [] | some d ↦ d.message ]

abbrev pub constraint_of : Option PqError → Option Bytes
constraint_of none = none
constraint_of (some d) = some d.constraint

abbrev pub message_of : Option PqError → Option Bytes
message_of none = none
message_of (some d) = some d.message

abbrev pub violation_code : Violation → Code
violation_code integrity = integrity_constraint_violation
violation_code restrict = restrict_violation
violation_code not_null = not_null_violation
violation_code foreign_key = foreign_key_violation
violation_code unique = unique_violation
violation_code check = check_violation
violation_code exclusion = exclusion_violation
