-- ===== src/Db/Serialized.antt =====
-- `SerializedTransaction` of db/transaction.go.
pub mod Retries
use go_sqldb.Prelude.{
  ℕ, zero, suc, Bool, true, false, ◌||◌, Option, none, some, if◌then◌else◌, Error,
  serialization_failure, serialized_within_other, serialized_retried, serialized_without_try,
  tx_begin_error, tx_rollback_error, tx_commit_error, joined, query_error, with_query,
  prepare_error, savepoint_rollback_error,
}
use go_sqldb.Transaction.{Connection, World, TxOptions, Outcome, returned, panicked}
use go_sqldb.Db.Context.{Context, is_transaction}
use go_sqldb.Db.Transaction.{CtxFunc, transaction_opts}

-- `SerializedTransactionRetries`, a variable that the program may set.
abbrev pub default_retries : ℕ
default_retries = 10

-- `errors.Is(err, sqldb.ErrSerializationFailure)`.
unfoldable pub is_serialization_failure : Error → Bool
is_serialization_failure serialization_failure = true
is_serialization_failure (tx_begin_error id e) = is_serialization_failure e
is_serialization_failure (tx_rollback_error id e e') =
    is_serialization_failure e || is_serialization_failure e'
is_serialization_failure (tx_commit_error id e) = is_serialization_failure e
is_serialization_failure (serialized_retried n e) = is_serialization_failure e
is_serialization_failure (savepoint_rollback_error e e') = is_serialization_failure e'
is_serialization_failure (query_error e) = is_serialization_failure e
is_serialization_failure (with_query q e) = is_serialization_failure e
is_serialization_failure (prepare_error e) = is_serialization_failure e
is_serialization_failure (joined e e') = is_serialization_failure e || is_serialization_failure e'
is_serialization_failure _ = false

-- The error of a try that is to be repeated.
abbrev pub retry_error : Outcome → Option Error
retry_error (returned (some e)) = if is_serialization_failure e then some e else none
retry_error (returned none) = none
retry_error (panicked p) = none

-- `fmt.Errorf("… retried %d times: %w", retries, err)`, also where no try was made.
abbrev pub exhausted : ℕ → Option Error → Error
exhausted retries none = serialized_without_try retries
exhausted retries (some e) = serialized_retried retries e

module _ {S : Type 0} (retries : ℕ) (attempt : World S → Outcome × World S) where
  -- The loop `for range SerializedTransactionRetries`; `last` is the variable `err`.
  unfoldable pub retry : ℕ → Option Error → World S → Outcome × World S
  retry zero last w = (returned (some (exhausted retries last)), w)
  retry (suc n) last w =
      let (out, w') = attempt w in
      elim (retry_error out) [ none ↦ (out, w') | some e ↦ retry n (some e) w' ]

module _ {S C : Type 0} (conn : Connection S C) (global_conn : C) (retries : ℕ) where
  abbrev pub serializable : TxOptions
  serializable = record { isolation = 6; read_only = false }

  -- One try, with the context that marks nested calls.
  abbrev pub attempt : Context S C → CtxFunc S C → World S → Outcome × World S
  attempt ctx tx_func =
      transaction_opts conn global_conn (record ctx { serialized = true }) (some serializable)
        tx_func

  unfoldable pub serialized_transaction : Context S C → CtxFunc S C → World S → Outcome × World S
  serialized_transaction ctx tx_func =
      if ctx.without_transactions
      then tx_func ctx
      else if is_transaction conn global_conn ctx
      then if ctx.serialized
        then tx_func ctx
        else (λ w. (returned (some serialized_within_other), w))
      else retry retries (attempt ctx tx_func) retries none
