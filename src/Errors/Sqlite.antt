-- ===== src/Errors/Sqlite.antt =====
-- sqliteconn/errors.go: errors are told apart by the primary result code and by words of the text in
-- lower case. `sqlite.ErrCode` with `ToPrimary`, and the text of an error, are parameters.
pub mod Classified
use go_sqldb.Prelude.{
  ◌≡◌, refl, ap, ◌∙◌, arith, ◌≢◌, Bool, true, false, not, ◌&&◌, ◌||◌, ◌==◌, [], ◌∷◌, Option, none,
  some, Bytes, codes, has_prefix, if◌then◌else◌, ◌≢◌,
}
use go_sqldb.Quoting.{to_lower}
use go_sqldb.Space.{trim_space}
use go_sqldb.Errors.{
  DbError, Violation, Violation-discrete, integrity, not_null, foreign_key, unique, check,
  violation, joined, context_canceled, other_error, first_error, is_some, as_violation, is_error,
  is_context_canceled,
}
use go_sqldb.Errors.Walk.{IsRaw}
use go_sqldb.Errors.Messages.{contains}

pub data Primary : Type 0 where
  result_constraint result_interrupt result_locked result_busy result_read_only : Primary
  other_result : Primary

-- The text behind a prefix.
abbrev strip_prefix : Bytes → Bytes → Bytes
strip_prefix [] s = s
strip_prefix (c ∷ p) [] = []
strip_prefix (c ∷ p) (d ∷ s) = strip_prefix p s

-- `strings.Index(s, p)` with the slice behind the part, which is given first.
unfoldable pub behind : Bytes → Bytes → Option Bytes
behind p [] = none
behind p (c ∷ s) =
    let rest = behind p s in if has_prefix p (c ∷ s) then some (strip_prefix p (c ∷ s)) else rest

-- The text up to the first of the bytes " ,;".
unfoldable pub until_separator : Bytes → Bytes
until_separator [] = []
until_separator (c ∷ s) =
    let rest = until_separator s in if c == 32 || (c == 44 || c == 59) then [] else c ∷ rest

unfoldable pub extract_constraint : Bytes → Bytes
extract_constraint msg = elim (behind (codes "constraint failed:") msg) [
  | none ↦ []
  | some rest ↦ until_separator (trim_space rest)
]

-- The violation that the words of a message tell, in the order of the tests.
unfoldable pub violation_kind : Bytes → Violation
violation_kind msg =
    if contains (codes "foreign key") msg
    then foreign_key
    else if contains (codes "unique") msg
    then unique
    else if contains (codes "not null") msg
    then not_null
    else if contains (codes "check") msg
    then check
    else integrity

-- `errors.New("database is read-only")`
abbrev pub database_is_read_only : {D : Type 0} → DbError D
database_is_read_only = other_error 20

abbrev pub is_constraint : Primary → Bool
is_constraint result_constraint = true
is_constraint _ = false

abbrev pub is_interrupt : Primary → Bool
is_interrupt result_interrupt = true
is_interrupt _ = false

abbrev is_locked : Primary → Bool
is_locked result_locked = true
is_locked result_busy = true
is_locked _ = false

-- The violation, the cancelled context or the error of a read-only database is joined.
abbrev pub join_code : {D : Type 0} → Primary → Bytes → DbError D → DbError D
join_code result_constraint msg e =
    joined (violation (violation_kind msg) (extract_constraint msg)) e
join_code result_interrupt msg e = joined context_canceled e
join_code result_locked msg e = e
join_code result_busy msg e = e
join_code result_read_only msg e = joined database_is_read_only e
join_code other_result msg e = e

module _ {D : Type 0} (primary : DbError D → Primary) (text : DbError D → Bytes) where
  -- `wrapKnownErrors` for an error that is not nil.
  unfoldable pub join_known : DbError D → DbError D
  join_known e =
      if is_error is_context_canceled e then e else join_code (primary e) (to_lower (text e)) e

  unfoldable pub wrap_known_errors : Option (DbError D) → Option (DbError D)
  wrap_known_errors none = none
  wrap_known_errors (some e) = some (join_known e)

  unfoldable pub is_constraint_violation : DbError D → Bool
  is_constraint_violation e = is_constraint (primary e)

  unfoldable pub is_foreign_key_violation : DbError D → Bool
  is_foreign_key_violation e =
      is_constraint_violation e && contains (codes "foreign key") (to_lower (text e))

  unfoldable pub is_unique_violation : DbError D → Bool
  is_unique_violation e = is_constraint_violation e && contains (codes "unique") (to_lower (text e))

  unfoldable pub is_not_null_violation : DbError D → Bool
  is_not_null_violation e =
      is_constraint_violation e && contains (codes "not null") (to_lower (text e))

  unfoldable pub is_check_violation : DbError D → Bool
  is_check_violation e = is_constraint_violation e && contains (codes "check") (to_lower (text e))

  unfoldable pub is_database_locked : DbError D → Bool
  is_database_locked e = is_locked (primary e)

module _ {D : Type 0} where
  pub joined-violation :
      (k k' : Violation) (constraint : Bytes) (e : DbError D)
      → k ≢ integrity
      → as_violation k e ≡ none
      → is_some (as_violation k (joined (violation k' constraint) e))
        ≡ elim (Violation-discrete k k') [ yes _ ↦ true | no _ ↦ false ]
  unfolding as_violation first_error
  joined-violation k k' constraint e n h = ground arith

  pub joined-integrity :
      (k' : Violation) (constraint : Bytes) (e : DbError D)
      → is_some (as_violation integrity (joined (violation k' constraint) e)) ≡ true
  unfolding as_violation first_error Violation-discrete
  joined-integrity k' constraint e = ground arith
