-- ===== src/Errors/Mysql.antt =====
-- mysqlconn/errors.go: the driver's error is joined with one of package sqldb, whose constraint is
-- cut out of the message. The loop of `nthSingleQuoted` is in Messages.
pub mod Told
use go_sqldb.Prelude.{
  ℕ, ◌≡◌, ◌≢◌, refl, ap, ◌∙◌, arith, inl, inr, Bool, true, false, ◌&&◌, ◌||◌, ◌==◌, List, [], ◌∷◌,
  ◌++◌, Option, none, some, Bytes, Option-cases, codes, if◌then◌else◌,
}
use go_sqldb.Errors.{
  DbError, Violation, integrity, not_null, foreign_key, unique, check, violation, joined,
  first_error, is_some, as_violation, as_driver, is_error, is_deadlock, deadlock, raised_exception,
}
use go_sqldb.Errors.Walk.{
  driver_test, driver_test-none, driver_test-some, join_with, join_with-none, join_with-some, IsRaw,
}
use go_sqldb.Errors.Messages.{
  last_after-append, IsFree-append, contains_name, nth_quoted, last_after, IsFree,
  nth_quoted-pieces,
}

-- The fields of `mysql.MySQLError` that the file reads.
pub record MySqlError : Type 0 where
  pub number : ℕ
  pub message : Bytes

-- The numbers of the file, and any other.
pub data Number : Type 0 where
  bad_null_error dup_entry no_referenced_row row_is_referenced deadlock_found signal : Number
  row_is_referenced2 no_referenced_row2 check_violated other_number : Number

-- The constants of the file.
unfoldable pub number_of : ℕ → Number
number_of n =
    if n == 1048
    then bad_null_error
    else if n == 1062
    then dup_entry
    else if n == 1216
    then no_referenced_row
    else if n == 1217
    then row_is_referenced
    else if n == 1213
    then deadlock_found
    else if n == 1644
    then signal
    else if n == 1451
    then row_is_referenced2
    else if n == 1452
    then no_referenced_row2
    else if n == 3819
    then check_violated
    else other_number

unfoldable pub nth_single_quoted : Bytes → ℕ → Bytes
nth_single_quoted = nth_quoted 39

unfoldable pub nth_backtick_quoted : Bytes → ℕ → Bytes
nth_backtick_quoted = nth_quoted 96

-- The key of a duplicate entry, less the table before the last dot.
unfoldable pub dup_key : Bytes → Bytes
dup_key message =
    let key = nth_single_quoted message 1 in
    elim (last_after 46 key) [ none ↦ key | some after ↦ after ]

-- The cases of `wrapKnownErrors`.
abbrev pub known_error : Number → Bytes → Option (DbError MySqlError)
known_error deadlock_found message = some deadlock
known_error signal message = some (raised_exception message)
known_error bad_null_error message = some (violation not_null (nth_single_quoted message 0))
known_error dup_entry message = some (violation unique (dup_key message))
known_error no_referenced_row message = some (violation foreign_key (nth_backtick_quoted message 2))
known_error no_referenced_row2 message =
    some (violation foreign_key (nth_backtick_quoted message 2))
known_error row_is_referenced message = some (violation foreign_key (nth_backtick_quoted message 2))
known_error row_is_referenced2 message =
    some (violation foreign_key (nth_backtick_quoted message 2))
known_error check_violated message = some (violation check (nth_single_quoted message 0))
known_error other_number message = none

-- `wrapKnownErrors` for an error that is not nil.
unfoldable pub join_known : DbError MySqlError → DbError MySqlError
join_known = join_with (λ d. known_error (number_of d.number) d.message)

unfoldable pub wrap_known_errors : Option (DbError MySqlError) → Option (DbError MySqlError)
wrap_known_errors none = none
wrap_known_errors (some e) = some (join_known e)

unfoldable pub is_deadlock_detected : DbError MySqlError → Bool
is_deadlock_detected = driver_test (λ d. d.number == 1213)

unfoldable pub is_not_null_violation : DbError MySqlError → Bool
is_not_null_violation = driver_test (λ d. d.number == 1048)

unfoldable pub is_unique_violation : DbError MySqlError → Bool
is_unique_violation = driver_test (λ d. d.number == 1062)

unfoldable pub is_check_violation : DbError MySqlError → Bool
is_check_violation = driver_test (λ d. d.number == 3819)

abbrev is_foreign_key_number : ℕ → Bool
is_foreign_key_number n = n == 1216 || n == 1452 || n == 1217 || n == 1451

abbrev pub among : List Bytes → Bytes → Bool
among [] name = true
among (n ∷ names) name = contains_name (n ∷ names) name

unfoldable pub is_foreign_key_violation : DbError MySqlError → List Bytes → Bool
is_foreign_key_violation e violated_constraints =
    driver_test
      (λ d.
        is_foreign_key_number d.number
        && among violated_constraints (nth_backtick_quoted d.message 2))
      e

abbrev pub is_named : List Bytes → Option Bytes → Bool
is_named names none = false
is_named names (some constraint) = among names constraint

-- What `known_error` finds, by the number.
abbrev pub found : Violation → ℕ → Bytes → Option Bytes
found not_null n message = if n == 1048 then some (nth_single_quoted message 0) else none
found unique n message = if n == 1062 then some (dup_key message) else none
found foreign_key n message =
    if is_foreign_key_number n then some (nth_backtick_quoted message 2) else none
found check n message = if n == 3819 then some (nth_single_quoted message 0) else none
found _ n message = none

abbrev found_class : Violation → Number → Bytes → Option Bytes
found_class not_null bad_null_error message = some (nth_single_quoted message 0)
found_class unique dup_entry message = some (dup_key message)
found_class foreign_key no_referenced_row message = some (nth_backtick_quoted message 2)
found_class foreign_key no_referenced_row2 message = some (nth_backtick_quoted message 2)
found_class foreign_key row_is_referenced message = some (nth_backtick_quoted message 2)
found_class foreign_key row_is_referenced2 message = some (nth_backtick_quoted message 2)
found_class check check_violated message = some (nth_single_quoted message 0)
found_class _ number message = none

join_number_class :
    (k : Violation) (e : DbError MySqlError) (number : Number) (message : Bytes)
    → k ≢ integrity
    → as_violation k e ≡ none
    → as_violation k (elim (known_error number message) [ none ↦ e | some x ↦ joined x e ])
      ≡ found_class k number message
unfolding as_violation first_error
join_number_class k e number message n raw = ground arith

found-number :
    (k : Violation) (n : ℕ) (message : Bytes)
    → found_class k (number_of n) message ≡ found k n message
unfolding number_of
found-number k n message = ground arith

pub join_number :
    (k : Violation) (e : DbError MySqlError) (number : ℕ) (message : Bytes)
    → k ≢ integrity
    → as_violation k e ≡ none
    → as_violation k
        (elim (known_error (number_of number) message) [ none ↦ e | some x ↦ joined x e ])
      ≡ found k number message
join_number k e number message n raw =
    join_number_class k e (number_of number) message n raw ∙ found-number k number message

pub join_deadlock :
    (e : DbError MySqlError) (number : ℕ) (message : Bytes)
    → is_error is_deadlock e ≡ false
    → is_error is_deadlock
        (elim (known_error (number_of number) message) [ none ↦ e | some x ↦ joined x e ])
      ≡ (number == 1213)
unfolding is_error first_error number_of
join_deadlock e number message raw = ground arith

pub join_driver :
    (e : DbError MySqlError) (number : Number) (message : Bytes)
    → as_driver (elim (known_error number message) [ none ↦ e | some x ↦ joined x e ]) ≡ as_driver e
unfolding as_driver first_error
join_driver e number message = ground arith
