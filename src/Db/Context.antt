-- ===== src/Db/Context.antt =====
-- The context values of db/context.go and db/transaction.go. `context.WithValue` sets one of them.
use go_sqldb.Prelude.{
  Bool, false, not, Option, none, some, Bytes, if◌then◌else◌, Error, within_transaction,
  not_within_transaction,
}
use go_sqldb.Transaction.{Connection, active, World}

-- The values under connCtxKey, noTransactionsCtxKey, serializedTransactionCtxKey and
-- savepointFuncCtxKey. A savepoint function draws a name and changes what it counts with.
pub record Context (S C : Type 0) : Type 0 where
  pub conn : Option C
  pub without_transactions : Bool
  pub serialized : Bool
  pub savepoint_func : Option (World S → Bytes × World S)

abbrev conn_or : {C : Type 0} → C → Option C → C
conn_or global none = global
conn_or global (some c) = c

module _ {S C : Type 0} (conn : Connection S C) (global_conn : C) where
  -- `Conn(ctx)`: the connection of the context, or the global one.
  abbrev pub conn_of : Context S C → C
  conn_of ctx = conn_or global_conn ctx.conn

  abbrev pub context_with_conn : Context S C → C → Context S C
  context_with_conn ctx c = record ctx { conn = some c }

  unfoldable pub is_transaction : Context S C → Bool
  is_transaction ctx =
      if ctx.without_transactions then false else active (conn.transaction (conn_of ctx))

  unfoldable pub validate_within_transaction : Context S C → Option Error
  validate_within_transaction ctx =
      if ctx.without_transactions
      then some not_within_transaction
      else if not (active (conn.transaction (conn_of ctx)))
      then some not_within_transaction
      else none

  unfoldable pub validate_not_within_transaction : Context S C → Option Error
  validate_not_within_transaction ctx =
      if ctx.without_transactions
      then none
      else if active (conn.transaction (conn_of ctx))
      then some within_transaction
      else none
