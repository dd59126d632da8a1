-- ===== src/Transaction/Calls.antt =====
-- Every transaction that begins is ended exactly once.
use go_sqldb.Prelude.{ℕ, ◌≡◌, List, [], ◌∷◌, ◌++◌, none, some, Result, ok, err}
use go_sqldb.Transaction.{Connection, World, TxFunc, Outcome, returned, panicked}

pub data Call : Type 0 where
  began : ℕ → Call
  committed : Call
  rolled_back : Call

-- A connection that notes the calls of Begin, Commit and Rollback beside the store.
abbrev pub logged : {S C : Type 0} → Connection S C → Connection (S × List Call) C
logged conn = record {
  transaction = conn.transaction;
  default_isolation_level = conn.default_isolation_level;
  begin = λ c id opts s. let (r, t) = conn.begin c id opts s.0 in (r, (t, s.1 ++ began id ∷ []));
  commit = λ c s. let (e, t) = conn.commit c s.0 in (e, (t, s.1 ++ committed ∷ []));
  rollback = λ c s. let (e, t) = conn.rollback c s.0 in (e, (t, s.1 ++ rolled_back ∷ []));
  exec = λ c q args s. let (e, t) = conn.exec c q args s.0 in (e, (t, s.1));
  prepare = λ c q s. let (r, t) = conn.prepare c q s.0 in (r, (t, s.1));
  stmt_exec = λ c n args s. let (e, t) = conn.stmt_exec c n args s.0 in (e, (t, s.1));
  stmt_close = λ c n s. let (e, t) = conn.stmt_close c n s.0 in (e, (t, s.1));
}

-- The call that ends a transaction whose function has this outcome.
abbrev pub ending : Outcome → Call
ending (returned none) = committed
ending (returned (some e)) = rolled_back
ending (panicked p) = rolled_back

abbrev pub ended :
    {S C : Type 0} → TxFunc (S × List Call) C → World (S × List Call) → Result C → List Call
ended tx_func begun (err e) = []
ended tx_func begun (ok tx) = ending (tx_func tx begun).0 ∷ []

module _ {S C : Type 0} (conn : Connection S C) where
  -- A function that leaves transactions alone.
  abbrev pub IsCallFree : TxFunc (S × List Call) C → Type 0
  IsCallFree tx_func = (c : C) (w : World (S × List Call)) → (tx_func c w).1.store.1 ≡ w.store.1
