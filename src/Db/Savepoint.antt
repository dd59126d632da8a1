-- ===== src/Db/Savepoint.antt =====
-- `TransactionSavepoint` of db/transaction.go.
pub mod Restore
use go_sqldb.Prelude.{
  ◌+◌, ◌%◌, ◌^◌, not, ◌++◌, [], Option, none, some, Bytes, codes, if◌then◌else◌, Error,
  savepoint_rollback_error,
}
use go_sqldb.Formatter.Placeholder.{itoa}
use go_sqldb.Transaction.{Connection, World, Outcome, returned, panicked, active, is_tx_done}
use go_sqldb.Db.Context.{Context, conn_of}
use go_sqldb.Db.Transaction.{CtxFunc, transaction}

-- `fmt.Sprintf("sp%d", savepointCounter.Add(1))` on a uint64.
unfoldable pub counted_savepoint : {S : Type 0} → World S → Bytes × World S
counted_savepoint w =
    let n = (w.savepoint_counter + 1) % 2 ^ 64 in
    (codes "sp" ++ itoa n, record w { savepoint_counter = n })

abbrev named_by : {S : Type 0} → Option (World S → Bytes × World S) → World S → Bytes × World S
named_by none w = counted_savepoint w
named_by (some savepoint_func) w = savepoint_func w

unfoldable pub next_savepoint : {S C : Type 0} → Context S C → World S → Bytes × World S
unfolding counted_savepoint
next_savepoint ctx w = named_by ctx.savepoint_func w

-- An error of the rollback is told in a text and wraps the first error only.
abbrev pub after_rollback : Option Error → Error → Error
after_rollback none cause = cause
after_rollback (some e) cause = if is_tx_done e then cause else savepoint_rollback_error e cause

module _ {S C : Type 0} (conn : Connection S C) where
  -- A statement on a connection.
  abbrev pub exec_in : C → Bytes → World S → Option Error × World S
  exec_in c query w = let (e, s) = conn.exec c query [] w.store in (e, record w { store = s })

  -- What follows the function: a panic passes, an error rolls back, and else the savepoint is
  -- released.
  unfoldable pub end_savepoint : C → Bytes → Outcome × World S → Outcome × World S
  end_savepoint c savepoint (panicked p, w) = (panicked p, w)
  end_savepoint c savepoint (returned (some cause), w) =
      let (e, w') = exec_in c (codes "rollback to " ++ savepoint) w in
      (returned (some (after_rollback e cause)), w')
  end_savepoint c savepoint (returned none, w) =
      let (e, w') = exec_in c (codes "release savepoint " ++ savepoint) w in (returned e, w')

  abbrev pub run_in_savepoint :
      C → Bytes → (World S → Outcome × World S) → Option Error × World S → Outcome × World S
  run_in_savepoint c savepoint tx_func (some e, w) = (returned (some e), w)
  run_in_savepoint c savepoint tx_func (none, w) = end_savepoint c savepoint (tx_func w)

  unfoldable pub with_savepoint :
      C → Bytes → (World S → Outcome × World S) → World S → Outcome × World S
  with_savepoint c savepoint tx_func w =
      run_in_savepoint c savepoint tx_func (exec_in c (codes "savepoint " ++ savepoint) w)

  unfoldable pub transaction_savepoint : C → Context S C → CtxFunc S C → World S → Outcome × World S
  transaction_savepoint global_conn ctx tx_func w =
      let c = conn_of conn global_conn ctx in
      if ctx.without_transactions
      then tx_func ctx w
      else if not (active (conn.transaction c))
      then transaction conn global_conn ctx tx_func w
      else (let (savepoint, w') = next_savepoint ctx w in
          with_savepoint c savepoint (tx_func ctx) w')
