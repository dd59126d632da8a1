-- ===== src/Tests/Transactions.antt =====
-- Transactions on a ledger: a committed balance, and the pending one of the transaction.
use go_sqldb.Prelude.{
  ℕ, ◌+◌, refl, ◌∷◌, [], false, List, ok, none, some, serialization_failure, if◌then◌else◌, ltb,
  length,
}
use go_sqldb.Value.{string}
use go_sqldb.Transaction.{Connection, World, TxFunc, returned}
use go_sqldb.Transaction.Atomicity.{IsTransactional}
use go_sqldb.Transaction.Calls.{Call}
use go_sqldb.Db.Context.{Context}
use go_sqldb.Db.Transaction.{CtxFunc}

pub record Ledger : Type 0 where
  pub balance : ℕ
  pub pending : ℕ

-- A connection is the number of its transaction. Exec adds the number of its arguments.
abbrev pub ledger : Connection Ledger ℕ
ledger = record {
  transaction = λ c. record { id = c; opts = none };
  default_isolation_level = λ c. 2;
  begin = λ c id opts s. (ok id, record s { pending = s.balance });
  commit = λ c s. (none, record s { balance = s.pending });
  rollback = λ c s. (none, record s { pending = s.balance });
  exec = λ c query args s. (none, record s { pending = s.pending + length args });
  prepare = λ c query s. (ok 1, s);
  stmt_exec = λ c stmt args s. (none, record s { pending = s.pending + length args });
  stmt_close = λ c stmt s. (none, s);
}

abbrev pub fresh : World Ledger
fresh = record {
  tx_counter = 0;
  savepoint_counter = 0;
  store = record { balance = 5; pending = 5 };
}

pub ledger-IsTransactional : IsTransactional ledger (λ s. s.balance) (λ c s. s.pending)
ledger-IsTransactional = record {
  begin_keeps = λ c id opts s. refl;
  rollback_keeps = λ c s. refl;
  commit_publishes = λ c s h. refl;
  commit_fails = λ c s e h. absurd cc;
}

abbrev deposit : TxFunc Ledger ℕ
deposit tx w = (returned none, record w { store = (ledger.exec tx [] (string [] ∷ []) w.store).1 })

abbrev fresh_log : World (Ledger × List Call)
fresh_log = record { tx_counter = 0; savepoint_counter = 0; store = (fresh.store, []) }

abbrev refuse : TxFunc (Ledger × List Call) ℕ
refuse tx w = (returned (some serialization_failure), w)

abbrev background : Context Ledger ℕ
background = record {
  conn = none;
  without_transactions = false;
  serialized = false;
  savepoint_func = none;
}

-- Fails with a serialization failure in the transactions 1 and 2.
abbrev contended : CtxFunc Ledger ℕ
contended ctx w =
    ((if ltb w.tx_counter 3 then returned (some serialization_failure) else returned none), w)
