-- ===== src/Errors/Mysql/Told.antt =====
-- That mysqlconn/errors.go adds what its functions report, and the name of a duplicate key.
use go_sqldb.Prelude.{
  ◌≡◌, ◌≢◌, refl, ap, ◌∙◌, arith, inl, inr, List, [], ◌∷◌, ◌++◌, Bytes, Option-cases, codes,
}
use go_sqldb.Errors.{
  DbError, Violation, integrity, not_null, foreign_key, unique, check, is_some, as_violation,
  as_driver, is_error, is_deadlock,
}
use go_sqldb.Errors.Walk.{driver_test-none, driver_test-some, join_with-none, join_with-some, IsRaw}
use go_sqldb.Errors.Messages.{
  last_after-append, IsFree-append, nth_quoted, IsFree, nth_quoted-pieces,
}
use go_sqldb.Errors.Mysql.{
  MySqlError, dup_key, is_check_violation, is_deadlock_detected, is_foreign_key_violation, is_named,
  is_not_null_violation, is_unique_violation, join_deadlock, join_driver, join_known, join_number,
  nth_single_quoted, number_of,
}

-- For an error in which no error of package sqldb stands, `wrapKnownErrors` adds exactly the error
-- that the `Is…` functions report: a missing value, a duplicate key, a failed check, a deadlock, and
-- a foreign key violation, which is reported for a list of names when the list is empty or has the
-- constraint's name; and the driver's error is still found in it.
pub join_known-tells :
    (e : DbError MySqlError)
    → IsRaw e
    → (is_some (as_violation not_null (join_known e)) ≡ is_not_null_violation e)
      × (is_some (as_violation unique (join_known e)) ≡ is_unique_violation e)
      × (is_some (as_violation check (join_known e)) ≡ is_check_violation e)
      × (is_error is_deadlock (join_known e) ≡ is_deadlock_detected e)
      × ((names : List Bytes)
          → is_named names (as_violation foreign_key (join_known e))
            ≡ is_foreign_key_violation e names)
      × (as_driver (join_known e) ≡ as_driver e)
unfolding join_known is_not_null_violation is_unique_violation is_check_violation
    is_deadlock_detected is_foreign_key_violation
join_known-tells e raw = elim (Option-cases (as_driver e)) [
  | inl h ↦ rw (join_with-none _ e h) (
    ap is_some (raw.no_violation not_null) ∙ driver_test-none _ e h,
    ap is_some (raw.no_violation unique) ∙ driver_test-none _ e h,
    ap is_some (raw.no_violation check) ∙ driver_test-none _ e h,
    raw.no_target is_deadlock ∙ driver_test-none _ e h,
    λ names. ap (is_named names) (raw.no_violation foreign_key) ∙ driver_test-none _ e h,
    refl,
  )
  | inr (d, h) ↦
      let finds : (k : Violation) → k ≢ integrity → _ =
        λ k n. join_number k e d.number d.message n (raw.no_violation k) in
      rw (join_with-some _ e d h) (
        ap is_some (finds not_null (λ p. cc p)) ∙ ground arith ∙ driver_test-some _ e d h,
        ap is_some (finds unique (λ p. cc p)) ∙ ground arith ∙ driver_test-some _ e d h,
        ap is_some (finds check (λ p. cc p)) ∙ ground arith ∙ driver_test-some _ e d h,
        join_deadlock e d.number d.message (raw.no_target is_deadlock) ∙ driver_test-some _ e d h,
        λ names.
            ap (is_named names) (finds foreign_key (λ p. cc p))
            ∙ ground arith
            ∙ driver_test-some _ e d h,
        join_driver e (number_of d.number) d.message,
      )
]

-- "Duplicate entry 'value' for key 'table.key'"
abbrev dup_entry_message : Bytes → Bytes → Bytes → Bytes
dup_entry_message value table key =
    codes "Duplicate entry '"
    ++ (value ++ (codes "' for key '" ++ ((table ++ (codes "." ++ key)) ++ codes "'")))

quoted_key :
    (value name : Bytes)
    → IsFree 39 value
    → IsFree 39 name
    → nth_quoted 39
        (codes "Duplicate entry '" ++ (value ++ (codes "' for key '" ++ (name ++ codes "'"))))
        1
      ≡ name
quoted_key value name hv hn =
    nth_quoted-pieces 39 (codes "Duplicate entry " ∷ value ∷ codes " for key " ∷ name ∷ [] ∷ []) 1
      (ground arith, (hv, (ground arith, (hn, (tt, tt)))))

-- When neither the value nor the names have a single quote in them and the key has no dot, the
-- constraint that `wrapKnownErrors` cuts out of the server's message "Duplicate entry 'value' for
-- key 'table.key'" is the key.
pub dup_key-message :
    (value table key : Bytes)
    → IsFree 39 value
    → IsFree 39 table
    → IsFree 39 key
    → IsFree 46 key
    → dup_key (dup_entry_message value table key) ≡ key
unfolding dup_key nth_single_quoted
dup_key-message value table key hv ht hk dot =
    rw
      (
        dup_key,
        quoted_key value (table ++ 46 ∷ key) hv
            (IsFree-append 39 table (46 ∷ key) ht (ground arith, hk)),
        last_after-append 46 table key dot,
      )
      refl
