-- ===== src/Prelude/Outcome.antt =====
-- Go's `(value, error)` pairs, and the errors of the modelled code.
use Prim.Native.Nat.{ℕ}
use mathlib.Core.Path.{◌≡◌, refl}
use go_sqldb.Prelude.Text.{Bytes}

pub data Error : Type 0 where
  invalid_table_name : Bytes → Error
  invalid_column_name : Bytes → Error
  num_rows_below_one : ℕ → Error
  requires_non_primary_key : Error
  requires_column : Error
  index_out_of_range : Error
  -- an error of the database driver or of the caller's code
  driver : ℕ → Error
  tx_done : Error
  serialization_failure : Error
  within_transaction : Error
  not_within_transaction : Error
  -- `fmt.Errorf` with `%w`, which keeps the wrapped errors
  tx_begin_error : ℕ → Error → Error
  tx_rollback_error : ℕ → Error → Error → Error
  tx_commit_error : ℕ → Error → Error
  parent_is_read_only : Error
  parent_is_less_strict : ℕ → ℕ → Error
  serialized_within_other : Error
  serialized_retried : ℕ → Error → Error
  serialized_without_try : ℕ → Error
  savepoint_rollback_error : Error → Error → Error
  no_columns : Error
  no_primary_key : Error
  -- `sql.ErrNoRows`
  no_rows : Error
  max_args_below_columns : ℕ → ℕ → Error
  query_error : Error → Error
  -- `errWithQuery`, without the arguments and the formatter
  with_query : Bytes → Error → Error
  prepare_error : Error → Error
  -- `errors.Join`
  joined : Error → Error → Error

pub data Result {ℓ} (A : Type ℓ) : Type ℓ where
  ok : A → Result A
  err : Error → Result A

infixl 5 ◌>>=◌
abbrev pub ◌>>=◌ {ℓ κ} : {A : Type ℓ} {B : Type κ} → Result A → (A → Result B) → Result B
ok a >>= f = f a
err e >>= f = err e

pub >>=-assoc {ℓ κ μ} :
    {A : Type ℓ} {B : Type κ} {C : Type μ} (m : Result A) (f : A → Result B) (g : B → Result C)
    → ((m >>= f) >>= g) ≡ (m >>= λ a. f a >>= g)
>>=-assoc (ok a) f g = refl
>>=-assoc (err e) f g = refl
