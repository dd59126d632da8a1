-- ===== src/Errors/Postgres/Agreed.antt =====
-- That pqconn/errors.go adds what its functions report.
use go_sqldb.Prelude.{
  ◌≡◌, refl, ◌∙◌, arith, inl, inr, Bool, true, false, none, some, Bytes, Option-cases, ◌≢◌, ap,
}
use go_sqldb.Errors.{
  DbError, Violation, integrity, joined, first_error, as_violation, as_driver, as_exception,
  is_error, is_deadlock, is_serialization_failure, is_query_canceled, is_context_canceled, Target,
  is_null_value_not_allowed, Target, Option, is_some, restrict, not_null, foreign_key, unique,
  check, exclusion,
}
use go_sqldb.Errors.Walk.{IsRaw}
use go_sqldb.Errors.Postgres.{
  Code, Code-discrete, PqError, constraint_of, deadlock_detected, is_deadlock_detected,
  is_query_canceled_error, is_serialization_failure_error, join_known, known_error, message_of,
  null_value_not_allowed_code, pq_as, query_canceled_code, raise_exception,
  tr_serialization_failure, violation_code, is_restrict_violation, List, matches_names,
  is_not_null_violation, [], ◌∷◌, contains_name, is_foreign_key_violation, is_unique_violation,
  is_check_violation, is_exclusion_violation, get_raised_exception,
}

join_code :
    (k : Violation) (e : DbError PqError) (code : Code) (message constraint : Bytes)
    → k ≢ integrity
    → as_violation k e ≡ none
    → as_violation k (elim (known_error code message constraint) [ none ↦ e | some x ↦ joined x e ])
      ≡ elim (Code-discrete code (violation_code k)) [ yes _ ↦ some constraint | no _ ↦ none ]
unfolding as_violation first_error
join_code k e code message constraint n raw = ground arith

-- The codes whose error is the target.
abbrev known_target : Target → Code → Bool
known_target is_query_canceled query_canceled_code = true
known_target is_context_canceled query_canceled_code = true
known_target is_deadlock deadlock_detected = true
known_target is_serialization_failure tr_serialization_failure = true
known_target is_null_value_not_allowed null_value_not_allowed_code = true
known_target _ _ = false

join_code_target :
    (target : Target) (e : DbError PqError) (code : Code) (message constraint : Bytes)
    → is_error target e ≡ false
    → is_error target
        (elim (known_error code message constraint) [ none ↦ e | some x ↦ joined x e ])
      ≡ known_target target code
unfolding is_error first_error
join_code_target target e code message constraint raw = ground arith

join_code_exception :
    (e : DbError PqError) (code : Code) (message constraint : Bytes)
    → as_exception e ≡ none
    → as_exception (elim (known_error code message constraint) [ none ↦ e | some x ↦ joined x e ])
      ≡ elim (Code-discrete code raise_exception) [ yes _ ↦ some message | no _ ↦ none ]
unfolding as_exception first_error
join_code_exception e code message constraint raw = ground arith

join_code_driver :
    (e : DbError PqError) (code : Code) (message constraint : Bytes)
    → as_driver (elim (known_error code message constraint) [ none ↦ e | some x ↦ joined x e ])
      ≡ as_driver e
unfolding as_driver first_error
join_code_driver e code message constraint = ground arith

join_known-none : (e : DbError PqError) → as_driver e ≡ none → join_known e ≡ e
unfolding join_known
join_known-none e h = rw (join_known, h) refl

join_known-some :
    (e : DbError PqError) (d : PqError)
    → as_driver e ≡ some d
    → join_known e
      ≡ elim (known_error d.code d.message d.constraint) [ none ↦ e | some k ↦ joined k e ]
unfolding join_known
join_known-some e d h = rw (join_known, h) refl

pq_as-none : (code : Code) (e : DbError PqError) → as_driver e ≡ none → pq_as code e ≡ none
unfolding pq_as
pq_as-none code e h = rw (pq_as, h) refl

pq_as-some :
    (code : Code) (e : DbError PqError) (d : PqError)
    → as_driver e ≡ some d
    → pq_as code e ≡ elim (Code-discrete d.code code) [ yes _ ↦ some d | no _ ↦ none ]
unfolding pq_as
pq_as-some code e d h = rw (pq_as, h) refl

join_known-adds :
    (e : DbError PqError)
    → IsRaw e
    → ((k : Violation)
        → k ≢ integrity
        → as_violation k (join_known e) ≡ constraint_of (pq_as (violation_code k) e))
      × (is_error is_deadlock (join_known e) ≡ is_deadlock_detected e)
      × (is_error is_serialization_failure (join_known e) ≡ is_serialization_failure_error e)
      × (is_error is_query_canceled (join_known e) ≡ is_query_canceled_error e)
      × (as_exception (join_known e) ≡ message_of (pq_as raise_exception e))
      × (as_driver (join_known e) ≡ as_driver e)
unfolding is_deadlock_detected is_serialization_failure_error is_query_canceled_error
join_known-adds e raw = elim (Option-cases (as_driver e)) [
  | inl h ↦ rw (join_known-none e h) (
    λ k n. rw (pq_as-none (violation_code k) e h) (raw.no_violation k),
    rw (pq_as-none deadlock_detected e h) (raw.no_target is_deadlock),
    rw (pq_as-none tr_serialization_failure e h) (raw.no_target is_serialization_failure),
    rw (pq_as-none query_canceled_code e h) (raw.no_target is_query_canceled),
    rw (pq_as-none raise_exception e h) raw.no_exception,
    refl,
  )
  | inr (d, h) ↦
      let join_target =
        λ (t : Target). join_code_target t e d.code d.message d.constraint (raw.no_target t) in
      rw (join_known-some e d h) (
        λ k n.
            join_code k e d.code d.message d.constraint n (raw.no_violation k)
            ∙ rw (pq_as-some (violation_code k) e d h) (ground arith),
        join_target is_deadlock ∙ rw (pq_as-some deadlock_detected e d h) (ground arith),
        join_target is_serialization_failure
            ∙ rw (pq_as-some tr_serialization_failure e d h) (ground arith),
        join_target is_query_canceled ∙ rw (pq_as-some query_canceled_code e d h) (ground arith),
        join_code_exception e d.code d.message d.constraint raw.no_exception
            ∙ rw (pq_as-some raise_exception e d h) (ground arith),
        join_code_driver e d.code d.message d.constraint,
      )
]

is_some-constraint_of : (o : Option PqError) → is_some (constraint_of o) ≡ is_some o
is_some-constraint_of none = refl
is_some-constraint_of (some d) = refl

-- The test of a name argument: without names any constraint will do.
abbrev pub is_named : List Bytes → Option Bytes → Bool
is_named names none = false
is_named [] (some constraint) = true
is_named (n ∷ names) (some constraint) = contains_name (n ∷ names) constraint

is_named-constraint_of :
    (names : List Bytes) (o : Option PqError)
    → is_named names (constraint_of o) ≡ matches_names names o
is_named-constraint_of names none = refl
is_named-constraint_of [] (some d) = refl
is_named-constraint_of (n ∷ names) (some d) = refl

-- The text of a raised exception, empty if there is none.
abbrev pub text_or_empty : Option Bytes → Bytes
text_or_empty none = []
text_or_empty (some message) = message

text_or_empty-message_of :
    (o : Option PqError) → text_or_empty (message_of o) ≡ elim o [ none ↦ [] | some d ↦ d.message ]
text_or_empty-message_of none = refl
text_or_empty-message_of (some d) = refl

-- For an error in which no error of package sqldb stands, `wrapKnownErrors` adds exactly the error
-- that the `Is…` and `Get…` functions of pqconn report of the driver's error. A restrict, not null,
-- foreign key, unique, check or exclusion violation is in the result exactly when
-- `IsRestrictViolation`, `IsNotNullViolation`, `IsForeignKeyViolation`, `IsUniqueViolation`,
-- `IsCheckViolation` or `IsExclusionViolation` is true, the foreign key one with a constraint among
-- the names given, if any are. The deadlock, the serialization failure and the canceled query are in
-- it exactly when `IsDeadlockDetected`, `IsSerializationFailure` and `IsQueryCanceled` are true, and
-- the text of the raised exception is that of `GetRaisedException`. Each violation but the general
-- one has the constraint's name that the driver's error has, an exception is there exactly when the
-- driver raised one, and the driver's error is still found in the result.
pub join_known-agrees :
    (e : DbError PqError)
    → IsRaw e
    → (is_some (as_violation restrict (join_known e)) ≡ is_restrict_violation e)
      × (is_some (as_violation not_null (join_known e)) ≡ is_not_null_violation e)
      × ((names : List Bytes)
          → is_named names (as_violation foreign_key (join_known e))
            ≡ is_foreign_key_violation e names)
      × (is_some (as_violation unique (join_known e)) ≡ is_unique_violation e)
      × (is_some (as_violation check (join_known e)) ≡ is_check_violation e)
      × (is_some (as_violation exclusion (join_known e)) ≡ is_exclusion_violation e)
      × (is_error is_deadlock (join_known e) ≡ is_deadlock_detected e)
      × (is_error is_serialization_failure (join_known e) ≡ is_serialization_failure_error e)
      × (is_error is_query_canceled (join_known e) ≡ is_query_canceled_error e)
      × (text_or_empty (as_exception (join_known e)) ≡ get_raised_exception e)
      × ((k : Violation)
          → k ≢ integrity
          → as_violation k (join_known e) ≡ constraint_of (pq_as (violation_code k) e))
      × (as_exception (join_known e) ≡ message_of (pq_as raise_exception e))
      × (as_driver (join_known e) ≡ as_driver e)
unfolding is_restrict_violation is_not_null_violation is_foreign_key_violation is_unique_violation
    is_check_violation is_exclusion_violation get_raised_exception
join_known-agrees e raw =
    let (violations, deadlocks, failures, cancels, exceptions, drivers) = join_known-adds e raw in
    (
      rw (violations restrict (ground arith)) (is_some-constraint_of _),
      rw (violations not_null (ground arith)) (is_some-constraint_of _),
      λ names. rw (violations foreign_key (ground arith)) (is_named-constraint_of names _),
      rw (violations unique (ground arith)) (is_some-constraint_of _),
      rw (violations check (ground arith)) (is_some-constraint_of _),
      rw (violations exclusion (ground arith)) (is_some-constraint_of _),
      deadlocks,
      failures,
      cancels,
      ap text_or_empty exceptions ∙ text_or_empty-message_of (pq_as raise_exception e),
      violations,
      exceptions,
      drivers,
    )
