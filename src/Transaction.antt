-- ===== src/Transaction.antt =====
-- Transactions: transaction.go, and of connection.go what they use of a `Connection`.
-- The world is the store of the database and the counters of transactions and savepoints; a connection is
-- a handle of any type. A panic is an outcome of the caller's function beside its error.
pub mod Options
pub mod Atomicity
pub mod Calls
use go_sqldb.Prelude.{
  ℕ, zero, ◌+◌, ◌%◌, ◌^◌, Bool, true, false, not, ◌&&◌, List, Option, none, some, Bytes, ltb, ◌==◌,
  if◌then◌else◌, Error, tx_done, tx_begin_error, tx_rollback_error, tx_commit_error,
  parent_is_read_only, parent_is_less_strict, joined, query_error, with_query, prepare_error,
  savepoint_rollback_error, serialized_retried, Result, ok, err, ◌||◌,
}
use go_sqldb.Value.{Value}

-- `sql.TxOptions`; an isolation level is its number, `sql.LevelDefault` is 0.
pub record TxOptions : Type 0 where
  pub isolation : ℕ
  pub read_only : Bool

pub record TransactionState : Type 0 where
  pub id : ℕ
  pub opts : Option TxOptions

-- A transaction is active if its number is not 0.
abbrev pub active : TransactionState → Bool
active ts = not (ts.id == 0)

-- The methods of the interface `Connection` that the modelled code calls, over handles `C` and a
-- store `S`. A prepared statement is a number.
pub record Connection (S C : Type 0) : Type 0 where
  pub transaction : C → TransactionState
  pub default_isolation_level : C → ℕ
  pub begin : C → ℕ → Option TxOptions → S → Result C × S
  pub commit : C → S → Option Error × S
  pub rollback : C → S → Option Error × S
  pub exec : C → Bytes → List Value → S → Option Error × S
  pub prepare : C → Bytes → S → Result ℕ × S
  pub stmt_exec : C → ℕ → List Value → S → Option Error × S
  pub stmt_close : C → ℕ → S → Option Error × S

pub record World (S : Type 0) : Type 0 where
  pub tx_counter : ℕ
  pub savepoint_counter : ℕ
  pub store : S

-- What a recovered panic holds: a value, or the error that wraps it.
pub data Panic : Type 0 where
  value : ℕ → Panic
  rollback_after : ℕ → Error → Panic → Panic

pub data Outcome : Type 0 where
  returned : Option Error → Outcome
  panicked : Panic → Outcome

-- A function that runs in a transaction, on its connection.
abbrev pub TxFunc : Type 0 → Type 0 → Type 0
TxFunc S C = C → World S → Outcome × World S

-- `errors.Is(e, sql.ErrTxDone)`, through everything that wraps.
pub is_tx_done : Error → Bool
is_tx_done tx_done = true
is_tx_done (tx_begin_error id e) = is_tx_done e
is_tx_done (tx_rollback_error id e e') = is_tx_done e || is_tx_done e'
is_tx_done (tx_commit_error id e) = is_tx_done e
is_tx_done (serialized_retried n e) = is_tx_done e
is_tx_done (savepoint_rollback_error e e') = is_tx_done e'
is_tx_done (query_error e) = is_tx_done e
is_tx_done (with_query q e) = is_tx_done e
is_tx_done (prepare_error e) = is_tx_done e
is_tx_done (joined e e') = is_tx_done e || is_tx_done e'
is_tx_done _ = false

-- `txCounter.Add(1)` on a uint64.
unfoldable pub next_transaction_id : {S : Type 0} → World S → ℕ × World S
next_transaction_id w = let id = (w.tx_counter + 1) % 2 ^ 64 in (id, record w { tx_counter = id })

abbrev pub isolation_of : ℕ → Option TxOptions → ℕ
isolation_of default_isolation none = default_isolation
isolation_of default_isolation (some opts) =
    if opts.isolation == 0 then default_isolation else opts.isolation

abbrev pub read_only_of : Option TxOptions → Bool
read_only_of none = false
read_only_of (some opts) = opts.read_only

unfoldable pub check_tx_options_compatibility :
    Option TxOptions → Option TxOptions → ℕ → Option Error
check_tx_options_compatibility parent child default_isolation =
    let parent_isolation = isolation_of default_isolation parent in
    let child_isolation = isolation_of default_isolation child in
    if read_only_of parent && not (read_only_of child)
    then some parent_is_read_only
    else if ltb parent_isolation child_isolation
    then some (parent_is_less_strict parent_isolation child_isolation)
    else none

-- An error of Rollback is reported, unless it says that the transaction is done.
abbrev after_error : ℕ → Option Error → Error → Error
after_error id none cause = cause
after_error id (some e) cause = if is_tx_done e then cause else tx_rollback_error id e cause

abbrev after_panic : ℕ → Option Error → Panic → Panic
after_panic id none r = r
after_panic id (some e) r = if is_tx_done e then r else rollback_after id e r

abbrev after_commit : ℕ → Option Error → Option Error
after_commit id none = none
after_commit id (some e) = some (tx_commit_error id e)

module _ {S C : Type 0} (conn : Connection S C) where
  -- The deferred function of `IsolatedTransaction`.
  unfoldable pub finish : ℕ → C → Outcome × World S → Outcome × World S
  finish id tx (panicked r, w) =
      let (e, s) = conn.rollback tx w.store in
      (panicked (after_panic id e r), record w { store = s })
  finish id tx (returned (some cause), w) =
      let (e, s) = conn.rollback tx w.store in
      (returned (some (after_error id e cause)), record w { store = s })
  finish id tx (returned none, w) =
      let (e, s) = conn.commit tx w.store in (returned (after_commit id e), record w { store = s })

  unfoldable pub run_begun : ℕ → TxFunc S C → World S → Result C × S → Outcome × World S
  run_begun id tx_func w (err e, s) =
      (returned (some (tx_begin_error id e)), record w { store = s })
  run_begun id tx_func w (ok tx, s) = finish id tx (tx_func tx (record w { store = s }))

  unfoldable pub isolated_transaction :
      C → Option TxOptions → TxFunc S C → World S → Outcome × World S
  isolated_transaction parent_conn opts tx_func w =
      let (id, w') = next_transaction_id w in
      run_begun id tx_func w' (conn.begin parent_conn id opts w'.store)

  abbrev run_nested : C → TxFunc S C → World S → Option Error → Outcome × World S
  run_nested parent_conn tx_func w none = tx_func parent_conn w
  run_nested parent_conn tx_func w (some e) = (returned (some e), w)

  unfoldable pub transaction : C → Option TxOptions → TxFunc S C → World S → Outcome × World S
  transaction parent_conn opts tx_func w =
      let tx = conn.transaction parent_conn in
      if active tx
      then run_nested parent_conn tx_func w
          (check_tx_options_compatibility tx.opts opts (conn.default_isolation_level parent_conn))
      else isolated_transaction parent_conn opts tx_func w
