-- ===== src/Errors/Mssql.antt =====
-- mssqlconn/errors.go: the driver's error is joined with one of package sqldb, whose constraint is
-- cut out of the message. The loop of `nthSingleQuoted` is in Messages.
use go_sqldb.Prelude.{
  ℕ, ◌≡◌, ◌≢◌, refl, ap, ◌∙◌, arith, inl, inr, Bool, true, false, ◌&&◌, ◌||◌, ◌==◌, List, [], ◌∷◌,
  Option, none, some, Bytes, Option-cases, codes, if◌then◌else◌,
}
use go_sqldb.Errors.{
  DbError, Violation, integrity, not_null, foreign_key, unique, check, violation, joined,
  first_error, is_some, as_violation, as_driver, is_error, is_deadlock, deadlock, raised_exception,
}
use go_sqldb.Errors.Walk.{
  IsRaw, join_with, join_with-none, join_with-some, driver_test, driver_test-none, driver_test-some,
}
use go_sqldb.Errors.Messages.{contains_name, contains, nth_quoted}

-- The fields of `mssql.Error` that the file reads.
pub record MsSqlError : Type 0 where
  pub number : ℕ
  pub message : Bytes

-- The numbers of the file, and any other.
pub data Number : Type 0 where
  cannot_insert_null constraint_conflict deadlock_victim dup_key_row : Number
  user_raised unique_constraint other_number : Number

-- The constants of the file.
unfoldable pub number_of : ℕ → Number
number_of n =
    if n == 515
    then cannot_insert_null
    else if n == 547
    then constraint_conflict
    else if n == 1205
    then deadlock_victim
    else if n == 2601
    then dup_key_row
    else if n == 50000
    then user_raised
    else if n == 2627
    then unique_constraint
    else other_number

unfoldable pub nth_single_quoted : Bytes → ℕ → Bytes
nth_single_quoted = nth_quoted 39

unfoldable pub first_single_quoted : Bytes → Bytes
first_single_quoted message = nth_single_quoted message 0

-- `firstDoubleQuoted` is the first round of the loop with the other quote.
unfoldable pub first_double_quoted : Bytes → Bytes
first_double_quoted message = nth_quoted 34 message 0

-- `strings.Contains(msg, "FOREIGN KEY")` and `strings.Contains(msg, "CHECK")`
unfoldable pub names_foreign_key : Bytes → Bool
names_foreign_key message = contains (codes "FOREIGN KEY") message

unfoldable pub names_check : Bytes → Bool
names_check message = contains (codes "CHECK") message

-- The cases of `wrapKnownErrors`.
abbrev pub known_error : Number → Bytes → Option (DbError MsSqlError)
known_error cannot_insert_null message = some (violation not_null (first_single_quoted message))
known_error constraint_conflict message =
    if names_foreign_key message
    then some (violation foreign_key (first_double_quoted message))
    else some (violation check (first_double_quoted message))
known_error deadlock_victim message = some deadlock
known_error user_raised message = some (raised_exception message)
known_error dup_key_row message = some (violation unique (nth_single_quoted message 1))
known_error unique_constraint message = some (violation unique (first_single_quoted message))
known_error other_number message = none

-- `wrapKnownErrors` for an error that is not nil.
unfoldable pub join_known : DbError MsSqlError → DbError MsSqlError
join_known = join_with (λ d. known_error (number_of d.number) d.message)

unfoldable pub wrap_known_errors : Option (DbError MsSqlError) → Option (DbError MsSqlError)
wrap_known_errors none = none
wrap_known_errors (some e) = some (join_known e)

unfoldable pub is_not_null_violation : DbError MsSqlError → Bool
is_not_null_violation = driver_test (λ d. d.number == 515)

unfoldable pub is_unique_violation : DbError MsSqlError → Bool
is_unique_violation = driver_test (λ d. d.number == 2601 || d.number == 2627)

abbrev pub among : List Bytes → Bytes → Bool
among [] name = true
among (n ∷ names) name = contains_name (n ∷ names) name

unfoldable pub is_foreign_key_violation : DbError MsSqlError → List Bytes → Bool
is_foreign_key_violation e violated_constraints =
    driver_test
      (λ d.
        d.number == 547
        && (names_foreign_key d.message
            && among violated_constraints (first_double_quoted d.message)))
      e

unfoldable pub is_check_violation : DbError MsSqlError → Bool
is_check_violation = driver_test (λ d. d.number == 547 && names_check d.message)

unfoldable pub is_deadlock_detected : DbError MsSqlError → Bool
is_deadlock_detected = driver_test (λ d. d.number == 1205)

abbrev pub is_named : List Bytes → Option Bytes → Bool
is_named names none = false
is_named names (some constraint) = among names constraint

-- What `known_error` finds, by the number.
abbrev found_class : Violation → Number → Bytes → Option Bytes
found_class not_null cannot_insert_null message = some (first_single_quoted message)
found_class unique dup_key_row message = some (nth_single_quoted message 1)
found_class unique unique_constraint message = some (first_single_quoted message)
found_class foreign_key constraint_conflict message =
    if names_foreign_key message then some (first_double_quoted message) else none
found_class check constraint_conflict message =
    if names_foreign_key message then none else some (first_double_quoted message)
found_class _ number message = none

join_number :
    (k : Violation) (e : DbError MsSqlError) (number : Number) (message : Bytes)
    → k ≢ integrity
    → as_violation k e ≡ none
    → as_violation k (elim (known_error number message) [ none ↦ e | some x ↦ joined x e ])
      ≡ found_class k number message
unfolding as_violation first_error
join_number k e number message n raw = ground arith

join_deadlock :
    (e : DbError MsSqlError) (number : ℕ) (message : Bytes)
    → is_error is_deadlock e ≡ false
    → is_error is_deadlock
        (elim (known_error (number_of number) message) [ none ↦ e | some x ↦ joined x e ])
      ≡ (number == 1205)
unfolding is_error first_error number_of
join_deadlock e number message raw = ground arith

join_driver :
    (e : DbError MsSqlError) (number : Number) (message : Bytes)
    → as_driver (elim (known_error number message) [ none ↦ e | some x ↦ joined x e ]) ≡ as_driver e
unfolding as_driver first_error
join_driver e number message = ground arith

-- For an error in which no error of package sqldb stands, `wrapKnownErrors` adds exactly the error
-- that the `Is…` functions report: a missing value, a duplicate key, a deadlock, and a foreign key
-- violation, which is reported for a list of names when the list is empty or has the constraint's
-- name. A failed check that `IsCheckViolation` reports is added when the message does not name a
-- foreign key. The driver's error is still found.
pub join_known-reports :
    (e : DbError MsSqlError)
    → IsRaw e
    → (is_some (as_violation not_null (join_known e)) ≡ is_not_null_violation e)
      × (is_some (as_violation unique (join_known e)) ≡ is_unique_violation e)
      × (is_error is_deadlock (join_known e) ≡ is_deadlock_detected e)
      × ((names : List Bytes)
          → is_named names (as_violation foreign_key (join_known e))
            ≡ is_foreign_key_violation e names)
      × (is_check_violation e ≡ true
          → is_foreign_key_violation e [] ≡ false
          → is_some (as_violation check (join_known e)) ≡ true)
      × (as_driver (join_known e) ≡ as_driver e)
unfolding join_known is_not_null_violation is_unique_violation is_check_violation
    is_deadlock_detected is_foreign_key_violation number_of
join_known-reports e raw = elim (Option-cases (as_driver e)) [
  | inl h ↦ rw (join_with-none _ e h) (
    ap is_some (raw.no_violation not_null) ∙ driver_test-none _ e h,
    ap is_some (raw.no_violation unique) ∙ driver_test-none _ e h,
    raw.no_target is_deadlock ∙ driver_test-none _ e h,
    λ names. ap (is_named names) (raw.no_violation foreign_key) ∙ driver_test-none _ e h,
    λ c f. absurd (
        cc
          (c, driver_test-none (λ (d : MsSqlError). d.number == 547 && names_check d.message) e h)),
    refl,
  )
  | inr (d, h) ↦
      let finds : (k : Violation) → k ≢ integrity → _ =
        λ k n. join_number k e (number_of d.number) d.message n (raw.no_violation k) in
      rw (join_with-some _ e d h) (
        ap is_some (finds not_null (λ p. cc p)) ∙ ground arith ∙ driver_test-some _ e d h,
        ap is_some (finds unique (λ p. cc p)) ∙ ground arith ∙ driver_test-some _ e d h,
        join_deadlock e d.number d.message (raw.no_target is_deadlock) ∙ driver_test-some _ e d h,
        λ names.
            ap (is_named names) (finds foreign_key (λ p. cc p))
            ∙ ground arith
            ∙ driver_test-some _ e d h,
        λ c f.
            ap is_some (finds check (λ p. cc p))
            ∙ ground (
              arith,
              driver_test-some (λ (d : MsSqlError). d.number == 547 && names_check d.message) e d h
                  ∙ c,
              driver_test-some
                    (λ (d : MsSqlError). d.number == 547 && (names_foreign_key d.message && true)) e
                    d h
                  ∙ f,
            ),
        join_driver e (number_of d.number) d.message,
      )
]
