-- ===== src/Db/Transaction.antt =====
-- The transaction functions of db/transaction.go. A function runs on a context.
use go_sqldb.Prelude.{Bool, true, not, Option, none, some, if◌then◌else◌}
use go_sqldb.Transaction
use go_sqldb.Transaction.{
  Connection, World, TxOptions, Outcome, returned, panicked, active, is_tx_done,
}
use go_sqldb.Db.Context.{Context, conn_of, context_with_conn}

abbrev pub CtxFunc : Type 0 → Type 0 → Type 0
CtxFunc S C = Context S C → World S → Outcome × World S

module _ {S C : Type 0} (conn : Connection S C) (global_conn : C) where
  unfoldable pub isolated_transaction : Context S C → CtxFunc S C → World S → Outcome × World S
  isolated_transaction ctx tx_func =
      if ctx.without_transactions
      then tx_func ctx
      else Transaction.isolated_transaction conn (conn_of conn global_conn ctx) none
          (λ tx. tx_func (context_with_conn conn global_conn ctx tx))

  unfoldable pub transaction_opts :
      Context S C → Option TxOptions → CtxFunc S C → World S → Outcome × World S
  transaction_opts ctx opts tx_func =
      if ctx.without_transactions
      then tx_func ctx
      else Transaction.transaction conn (conn_of conn global_conn ctx) opts
          (λ tx. tx_func (context_with_conn conn global_conn ctx tx))

  -- `Transaction` passes no options on, `TransactionReadOnly` read-only ones.
  unfoldable pub transaction : Context S C → CtxFunc S C → World S → Outcome × World S
  transaction ctx tx_func =
      if ctx.without_transactions
      then tx_func ctx
      else Transaction.transaction conn (conn_of conn global_conn ctx) none
          (λ tx. tx_func (context_with_conn conn global_conn ctx tx))

  unfoldable pub transaction_read_only : Context S C → CtxFunc S C → World S → Outcome × World S
  transaction_read_only ctx tx_func =
      if ctx.without_transactions
      then tx_func ctx
      else Transaction.transaction conn (conn_of conn global_conn ctx)
          (some (record { isolation = 0; read_only = true }))
          (λ tx. tx_func (context_with_conn conn global_conn ctx tx))

  unfoldable pub optional_transaction :
      Context S C → Bool → CtxFunc S C → World S → Outcome × World S
  optional_transaction ctx use_transaction tx_func =
      if not use_transaction then tx_func ctx else transaction ctx tx_func
