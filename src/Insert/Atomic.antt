-- ===== src/Insert/Atomic.antt =====
-- `InsertRowStructs` in several batches: all rows or none.
use go_sqldb.Prelude.{ℕ, ◌≡◌, refl, ◌∙◌, false, List, none, Bytes, Result, ok, err}
use go_sqldb.Value.{Value}
use go_sqldb.Transaction.{Connection, World, active, transaction}
use go_sqldb.Transaction.Atomicity.{
  IsTransactional, AllRanOrNothing, isolated_transaction-AllRanOrNothing,
}
use go_sqldb.Action.{Action, ◌>>=◌, pure, continue, as_outcome}
use go_sqldb.Insert.Succeeds.{as_outcome-ok}

module _ {S C V : Type 0} (conn : Connection S C) (view : S → V) where
  -- Nobody else sees what is executed on a connection in a transaction.
  pub record IsPrivate : Type 0 where
    pub exec_keeps :
        (c : C) (query : Bytes) (args : List Value) (s : S)
        → view (conn.exec c query args s).1 ≡ view s
    pub prepare_keeps : (c : C) (query : Bytes) (s : S) → view (conn.prepare c query s).1 ≡ view s
    pub stmt_exec_keeps :
        (c : C) (stmt : ℕ) (args : List Value) (s : S)
        → view (conn.stmt_exec c stmt args s).1 ≡ view s
    pub stmt_close_keeps : (c : C) (stmt : ℕ) (s : S) → view (conn.stmt_close c stmt s).1 ≡ view s

  abbrev pub Hidden : {A : Type 0} → Action S A → Type 0
  Hidden m = (w : World S) → view (m w).1.store ≡ view w.store

  pub continue-Hidden :
      {A B : Type 0} (f : A → Action S B)
      → ((a : A) → Hidden (f a))
      → (p : Result A × World S) → view (continue f p).1.store ≡ view p.1.store
  continue-Hidden f h (ok a, w) = h a w
  continue-Hidden f h (err e, w) = refl

  pub >>=-Hidden :
      {A B : Type 0} (m : Action S A) (f : A → Action S B)
      → Hidden m
      → ((a : A) → Hidden (f a))
      → Hidden (m >>= f)
  >>=-Hidden m f p q w = continue-Hidden f q (m w) ∙ p w

  pub pure-Hidden : {A : Type 0} (a : A) → Hidden (pure a)
  pure-Hidden a w = refl

module _ {S C V : Type 0} (conn : Connection S C) (view : S → V) (pending : C → S → V) where
  -- Behind `transaction` on a connection in no transaction.
  pub transaction-AllRanOrNothing :
      (law : IsTransactional conn view pending) (c : C) (ran : C → S → S → Type 0)
      (f : C → Action S (Unit {0})) (w : World S)
      → active (conn.transaction c) ≡ false
      → ((tx : C) → Hidden conn view (f tx))
      → ((tx : C) (begun : World S)
          → (f tx begun).0 ≡ ok tt
          → ran tx begun.store (f tx begun).1.store)
      → AllRanOrNothing conn view pending c none ran w
          (transaction conn c none (λ tx. as_outcome (f tx)) w)
  unfolding transaction
  transaction-AllRanOrNothing law c ran f w outside hidden h = rw outside (
      isolated_transaction-AllRanOrNothing conn view pending law c none ran
        (λ tx. as_outcome (f tx)) w hidden λ tx begun e. h tx begun (as_outcome-ok (f tx) begun e))
