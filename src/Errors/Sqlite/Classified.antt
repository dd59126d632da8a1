-- ===== src/Errors/Sqlite/Classified.antt =====
-- Which violation sqliteconn/errors.go adds to an error.
use go_sqldb.Prelude.{
  ◌≡◌, refl, ap, ◌∙◌, arith, ◌≢◌, Bool, true, false, not, ◌&&◌, none, Bytes, codes, ◌≢◌,
}
use go_sqldb.Quoting.{to_lower}
use go_sqldb.Errors.{
  DbError, Violation, Violation-discrete, integrity, not_null, foreign_key, unique, check,
  first_error, is_some, as_violation, is_error, is_context_canceled,
}
use go_sqldb.Errors.Walk.{IsRaw}
use go_sqldb.Errors.Messages.{contains}
use go_sqldb.Errors.Sqlite.{
  Primary, extract_constraint, is_check_violation, is_constraint, is_constraint_violation,
  is_foreign_key_violation, is_interrupt, is_not_null_violation, is_unique_violation, join_code,
  join_known, joined-integrity, joined-violation, other_result, result_busy, result_constraint,
  result_interrupt, result_locked, result_read_only, violation_kind,
}

-- The violations are the same.
abbrev is_kind : Violation → Violation → Bool
is_kind k k' = elim (Violation-discrete k k') [ yes _ ↦ true | no _ ↦ false ]

is_kind-foreign_key :
    (msg : Bytes) → is_kind foreign_key (violation_kind msg) ≡ contains (codes "foreign key") msg
unfolding violation_kind Violation-discrete
is_kind-foreign_key msg = ground arith

is_kind-unique :
    (msg : Bytes)
    → is_kind unique (violation_kind msg)
      ≡ (not (contains (codes "foreign key") msg) && contains (codes "unique") msg)
unfolding violation_kind Violation-discrete
is_kind-unique msg = ground arith

is_kind-not_null :
    (msg : Bytes)
    → is_kind not_null (violation_kind msg) ≡ (
        not (contains (codes "foreign key") msg)
        && (not (contains (codes "unique") msg) && contains (codes "not null") msg))
unfolding violation_kind Violation-discrete
is_kind-not_null msg = ground arith

is_kind-check :
    (msg : Bytes)
    → is_kind check (violation_kind msg) ≡ (
        not (contains (codes "foreign key") msg)
        && (not (contains (codes "unique") msg)
            && (not (contains (codes "not null") msg) && contains (codes "check") msg)))
unfolding violation_kind Violation-discrete
is_kind-check msg = ground arith

module _ {D : Type 0} where
  violation-join_code :
      (k : Violation) (p : Primary) (msg : Bytes) (e : DbError D)
      → k ≢ integrity
      → as_violation k e ≡ none
      → is_some (as_violation k (join_code p msg e))
        ≡ (is_constraint p && is_kind k (violation_kind msg))
  unfolding as_violation first_error
  violation-join_code k result_constraint msg e n h =
      joined-violation k (violation_kind msg) (extract_constraint msg) e n h
  violation-join_code k result_interrupt msg e n h = ap is_some h
  violation-join_code k result_locked msg e n h = ap is_some h
  violation-join_code k result_busy msg e n h = ap is_some h
  violation-join_code k result_read_only msg e n h = ap is_some h
  violation-join_code k other_result msg e n h = ap is_some h

  integrity-join_code :
      (p : Primary) (msg : Bytes) (e : DbError D)
      → as_violation integrity e ≡ none
      → is_some (as_violation integrity (join_code p msg e)) ≡ is_constraint p
  unfolding as_violation first_error
  integrity-join_code result_constraint msg e h =
      joined-integrity (violation_kind msg) (extract_constraint msg) e
  integrity-join_code result_interrupt msg e h = ap is_some h
  integrity-join_code result_locked msg e h = ap is_some h
  integrity-join_code result_busy msg e h = ap is_some h
  integrity-join_code result_read_only msg e h = ap is_some h
  integrity-join_code other_result msg e h = ap is_some h

  canceled-join_code :
      (p : Primary) (msg : Bytes) (e : DbError D)
      → is_error is_context_canceled e ≡ false
      → is_error is_context_canceled (join_code p msg e) ≡ is_interrupt p
  unfolding is_error first_error
  canceled-join_code p msg e h = ground arith

module _ {D : Type 0} (primary : DbError D → Primary) (text : DbError D → Bytes) where
  -- For an error in which no error of package sqldb stands and that is no canceled context,
  -- `wrapKnownErrors` adds an integrity violation exactly to a constraint violation, and a canceled
  -- context exactly to an interrupt. The violation is that of the first of the functions
  -- `IsForeignKeyViolation`, `IsUniqueViolation`, `IsNotNullViolation` and `IsCheckViolation` that
  -- reports the error, whether or not one behind it reports it too.
  pub join_known-classifies :
      (e : DbError D)
      → IsRaw e
      → let foreign = is_foreign_key_violation primary text e in
        let duplicate = is_unique_violation primary text e in
        let missing = is_not_null_violation primary text e in
        let r = join_known primary text e in
        (is_some (as_violation integrity r) ≡ is_constraint_violation primary text e)
        × (is_some (as_violation foreign_key r) ≡ foreign)
        × (is_some (as_violation unique r) ≡ (not foreign && duplicate))
        × (is_some (as_violation not_null r) ≡ (not foreign && (not duplicate && missing)))
        × (is_some (as_violation check r) ≡ (
            not foreign && (not duplicate && (not missing && is_check_violation primary text e))))
        × (is_error is_context_canceled r ≡ is_interrupt (primary e))
  unfolding join_known is_constraint_violation is_foreign_key_violation is_unique_violation
      is_not_null_violation is_check_violation
  join_known-classifies e raw =
      let msg = to_lower (text e) in
      let p = primary e in
      rw (join_known, raw.no_target is_context_canceled)
        (
          integrity-join_code p msg e (raw.no_violation integrity),
          violation-join_code foreign_key p msg e (λ q. cc q) (raw.no_violation foreign_key)
              ∙ rw (is_kind-foreign_key msg) refl,
          violation-join_code unique p msg e (λ q. cc q) (raw.no_violation unique)
              ∙ rw (is_kind-unique msg) ground arith,
          violation-join_code not_null p msg e (λ q. cc q) (raw.no_violation not_null)
              ∙ rw (is_kind-not_null msg) ground arith,
          violation-join_code check p msg e (λ q. cc q) (raw.no_violation check)
              ∙ rw (is_kind-check msg) ground arith,
          canceled-join_code p msg e (raw.no_target is_context_canceled),
        )
