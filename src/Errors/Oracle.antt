-- ===== src/Errors/Oracle.antt =====
-- oraconn/errors.go: the driver's error is joined with one of package sqldb, whose constraint stands
-- in parentheses in the message.
use go_sqldb.Prelude.{
  ℕ, ◌≡◌, ◌≢◌, refl, ap, ◌∙◌, arith, inl, inr, Bool, true, false, ◌&&◌, ◌||◌, ◌==◌, List, [], ◌∷◌,
  ◌++◌, Option, none, some, Bytes, Option-cases, if◌then◌else◌, leb,
}
use go_sqldb.Errors.{
  DbError, Violation, integrity, not_null, foreign_key, unique, check, violation, joined,
  first_error, is_some, as_violation, as_driver, is_error, is_deadlock, deadlock,
  serialization_failure, query_canceled, raised_exception, is_query_canceled,
}
use go_sqldb.Errors.Walk.{
  IsRaw, join_with, join_with-none, join_with-some, driver_test, driver_test-none, driver_test-some,
}
use go_sqldb.Errors.Messages.{contains_name, cut, cut-append, IsFree}

-- The fields of `network.OracleError` that the file reads.
pub record OracleError : Type 0 where
  pub err_code : ℕ
  pub err_msg : Bytes

-- The codes of the file, and any other.
pub data Code : Type 0 where
  unique_code not_null_code parent_not_found child_record_found check_code : Code
  deadlock_code serialization_code canceled_code raised_code other_code : Code

-- The constants of the file and the cases of the `switch`, in their order.
unfoldable pub code_of : ℕ → Code
code_of n =
    if n == 1
    then unique_code
    else if n == 1400
    then not_null_code
    else if n == 2291
    then parent_not_found
    else if n == 2292
    then child_record_found
    else if n == 2290
    then check_code
    else if n == 60
    then deadlock_code
    else if n == 8177
    then serialization_code
    else if n == 1013
    then canceled_code
    else if leb 20000 n && leb n 20999
    then raised_code
    else other_code

-- `msg[start:]` begins with the parenthesis, so the slice up to `end` is what stands between them.
unfoldable pub extract_constraint_name : Bytes → Bytes
extract_constraint_name msg = elim (cut 40 msg) [
  | none ↦ []
  | some (before, rest) ↦ elim (cut 41 rest) [ none ↦ [] | some (name, after) ↦ name ]
]

-- The cases of `wrapKnownErrors`.
abbrev pub known_error : Code → Bytes → Option (DbError OracleError)
known_error unique_code msg = some (violation unique (extract_constraint_name msg))
known_error not_null_code msg = some (violation not_null (extract_constraint_name msg))
known_error parent_not_found msg = some (violation foreign_key (extract_constraint_name msg))
known_error child_record_found msg = some (violation foreign_key (extract_constraint_name msg))
known_error check_code msg = some (violation check (extract_constraint_name msg))
known_error deadlock_code msg = some deadlock
known_error serialization_code msg = some serialization_failure
known_error canceled_code msg = some query_canceled
known_error raised_code msg = some (raised_exception msg)
known_error other_code msg = none

-- `wrapKnownErrors` for an error that is not nil.
unfoldable pub join_known : DbError OracleError → DbError OracleError
join_known = join_with (λ d. known_error (code_of d.err_code) d.err_msg)

unfoldable pub wrap_known_errors : Option (DbError OracleError) → Option (DbError OracleError)
wrap_known_errors none = none
wrap_known_errors (some e) = some (join_known e)

unfoldable pub is_unique_violation : DbError OracleError → Bool
is_unique_violation = driver_test (λ d. d.err_code == 1)

unfoldable pub is_not_null_violation : DbError OracleError → Bool
is_not_null_violation = driver_test (λ d. d.err_code == 1400)

abbrev pub among : List Bytes → Bytes → Bool
among [] name = true
among (n ∷ names) name = contains_name (n ∷ names) name

unfoldable pub is_foreign_key_violation : DbError OracleError → List Bytes → Bool
is_foreign_key_violation e violated_constraints =
    driver_test
      (λ d.
        (d.err_code == 2291 || d.err_code == 2292)
        && among violated_constraints (extract_constraint_name d.err_msg))
      e

unfoldable pub is_check_violation : DbError OracleError → Bool
is_check_violation = driver_test (λ d. d.err_code == 2290)

unfoldable pub is_deadlock_detected : DbError OracleError → Bool
is_deadlock_detected = driver_test (λ d. d.err_code == 60)

unfoldable pub is_query_canceled_error : DbError OracleError → Bool
is_query_canceled_error = driver_test (λ d. d.err_code == 1013)

abbrev pub is_named : List Bytes → Option Bytes → Bool
is_named names none = false
is_named names (some constraint) = among names constraint

abbrev found_class : Violation → Code → Bytes → Option Bytes
found_class not_null not_null_code msg = some (extract_constraint_name msg)
found_class unique unique_code msg = some (extract_constraint_name msg)
found_class foreign_key parent_not_found msg = some (extract_constraint_name msg)
found_class foreign_key child_record_found msg = some (extract_constraint_name msg)
found_class check check_code msg = some (extract_constraint_name msg)
found_class _ code msg = none

join_code :
    (k : Violation) (e : DbError OracleError) (code : Code) (msg : Bytes)
    → k ≢ integrity
    → as_violation k e ≡ none
    → as_violation k (elim (known_error code msg) [ none ↦ e | some x ↦ joined x e ])
      ≡ found_class k code msg
unfolding as_violation first_error
join_code k e code msg n raw = ground arith

join_deadlock :
    (e : DbError OracleError) (code : ℕ) (msg : Bytes)
    → is_error is_deadlock e ≡ false
    → is_error is_deadlock
        (elim (known_error (code_of code) msg) [ none ↦ e | some x ↦ joined x e ])
      ≡ (code == 60)
unfolding is_error first_error code_of
join_deadlock e code msg raw = ground arith

join_canceled :
    (e : DbError OracleError) (code : ℕ) (msg : Bytes)
    → is_error is_query_canceled e ≡ false
    → is_error is_query_canceled
        (elim (known_error (code_of code) msg) [ none ↦ e | some x ↦ joined x e ])
      ≡ (code == 1013)
unfolding is_error first_error code_of
join_canceled e code msg raw = ground arith

join_driver :
    (e : DbError OracleError) (code : Code) (msg : Bytes)
    → as_driver (elim (known_error code msg) [ none ↦ e | some x ↦ joined x e ]) ≡ as_driver e
unfolding as_driver first_error
join_driver e code msg = ground arith

-- For an error in which no error of package sqldb stands, `wrapKnownErrors` adds exactly the error
-- that the `Is…` functions report: a missing value, a duplicate key, a failed check, a deadlock, a
-- canceled query, and a foreign key violation, which is reported for a list of names when the list
-- is empty or has the constraint's name; and the driver's error is still found in it.
pub join_known-matches :
    (e : DbError OracleError)
    → IsRaw e
    → (is_some (as_violation not_null (join_known e)) ≡ is_not_null_violation e)
      × (is_some (as_violation unique (join_known e)) ≡ is_unique_violation e)
      × (is_some (as_violation check (join_known e)) ≡ is_check_violation e)
      × (is_error is_deadlock (join_known e) ≡ is_deadlock_detected e)
      × (is_error is_query_canceled (join_known e) ≡ is_query_canceled_error e)
      × ((names : List Bytes)
          → is_named names (as_violation foreign_key (join_known e))
            ≡ is_foreign_key_violation e names)
      × (as_driver (join_known e) ≡ as_driver e)
unfolding join_known is_not_null_violation is_unique_violation is_check_violation
    is_deadlock_detected is_query_canceled_error is_foreign_key_violation code_of
join_known-matches e raw = elim (Option-cases (as_driver e)) [
  | inl h ↦ rw (join_with-none _ e h) (
    ap is_some (raw.no_violation not_null) ∙ driver_test-none _ e h,
    ap is_some (raw.no_violation unique) ∙ driver_test-none _ e h,
    ap is_some (raw.no_violation check) ∙ driver_test-none _ e h,
    raw.no_target is_deadlock ∙ driver_test-none _ e h,
    raw.no_target is_query_canceled ∙ driver_test-none _ e h,
    λ names. ap (is_named names) (raw.no_violation foreign_key) ∙ driver_test-none _ e h,
    refl,
  )
  | inr (d, h) ↦
      let finds : (k : Violation) → k ≢ integrity → _ =
        λ k n. join_code k e (code_of d.err_code) d.err_msg n (raw.no_violation k) in
      rw (join_with-some _ e d h) (
        ap is_some (finds not_null (λ p. cc p)) ∙ ground arith ∙ driver_test-some _ e d h,
        ap is_some (finds unique (λ p. cc p)) ∙ ground arith ∙ driver_test-some _ e d h,
        ap is_some (finds check (λ p. cc p)) ∙ ground arith ∙ driver_test-some _ e d h,
        join_deadlock e d.err_code d.err_msg (raw.no_target is_deadlock) ∙ driver_test-some _ e d h,
        join_canceled e d.err_code d.err_msg (raw.no_target is_query_canceled)
            ∙ driver_test-some _ e d h,
        λ names.
            ap (is_named names) (finds foreign_key (λ p. cc p))
            ∙ ground arith
            ∙ driver_test-some _ e d h,
        join_driver e (code_of d.err_code) d.err_msg,
      )
]

-- For a message in which the constraint's name is the first text in parentheses, the name is found.
pub extract_constraint_name-message :
    (before name after : Bytes)
    → IsFree 40 before
    → IsFree 41 name
    → extract_constraint_name (before ++ 40 ∷ (name ++ 41 ∷ after)) ≡ name
unfolding extract_constraint_name
extract_constraint_name-message before name after hb hn =
    rw
      (
        extract_constraint_name,
        cut-append 40 before (name ++ 41 ∷ after) hb,
        cut-append 41 name after hn,
      )
      refl
