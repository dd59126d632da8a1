-- ===== src/Tests/Savepoints.antt =====
-- A savepoint on a database that runs the statements which `TransactionSavepoint` writes.
use go_sqldb.Prelude.{
  has_prefix, ℕ, ◌≡◌, ◌≢◌, refl, ◌∙◌, ap, inl, inr, false, List, [], ◌∷◌, ◌++◌, All, none, some,
  Bytes, codes, drop, bytes_eq, Bool-cases, if◌then◌else◌, serialization_failure, ok, bytes_eq_refl,
  bytes_eq_sound,
}
use go_sqldb.Transaction.{Connection, World, returned}
use go_sqldb.Db.Context.{Context}
use go_sqldb.Db.Transaction.{CtxFunc}
use go_sqldb.Db.Savepoint.{transaction_savepoint}
use go_sqldb.Db.Savepoint.Restore.{HasSavepoints, Restores, transaction_savepoint-Restores}

pub record Marked : Type 0 where
  pub content : ℕ
  pub marks : List (Bytes × ℕ)

abbrev kept_by : Bytes → ℕ → List (Bytes × ℕ) → ℕ
kept_by savepoint content [] = content
kept_by savepoint content (mark ∷ marks) =
    let rest = kept_by savepoint content marks in if bytes_eq mark.0 savepoint then mark.1 else rest

abbrev run : Bytes → Marked → Marked
run query s =
    if has_prefix (codes "savepoint ") query
    then record s { marks = (drop 10 query, s.content) ∷ s.marks }
    else if has_prefix (codes "rollback to ") query
    then record s { content = kept_by (drop 12 query) s.content s.marks }
    else s

abbrev marking : Connection Marked ℕ
marking = record {
  transaction = λ c. record { id = c; opts = none };
  default_isolation_level = λ c. 0;
  begin = λ c id opts s. (ok id, s);
  commit = λ c s. (none, s);
  rollback = λ c s. (none, s);
  exec = λ c query args s. (none, run query s);
  prepare = λ c query s. (ok 1, s);
  stmt_exec = λ c stmt args s. (none, s);
  stmt_close = λ c stmt s. (none, s);
}

kept_by-later :
    (savepoint : Bytes) (kept content : ℕ) (later earlier : List (Bytes × ℕ))
    → All (λ mark. mark.0 ≢ savepoint) later
    → kept_by savepoint content (later ++ (savepoint, kept) ∷ earlier) ≡ kept
kept_by-later savepoint kept content [] earlier free = rw (bytes_eq_refl savepoint) refl
kept_by-later savepoint kept content (mark ∷ later) earlier (other, free) =
    elim (Bool-cases (bytes_eq mark.0 savepoint)) [
      | inl same ↦ absurd (other (bytes_eq_sound _ _ same))
      | inr differs ↦ rw differs (kept_by-later savepoint kept content later earlier free)
    ]

marking-HasSavepoints : HasSavepoints marking 1 (λ s. s.content) (λ s. s.marks)
unfolding has_prefix
marking-HasSavepoints = record {
  sets = λ savepoint s h. (refl, refl);
  sets_nothing = λ savepoint s e h. absurd cc;
  rolls_back = λ savepoint kept later earlier s e free. (
    refl,
    ap (λ (m : List (Bytes × ℕ)). kept_by savepoint s.content m) e
        ∙ kept_by-later savepoint kept s.content later earlier free,
  );
  releases = λ savepoint s. refl;
}

abbrev in_transaction : Context Marked ℕ
in_transaction = record {
  conn = some 1;
  without_transactions = false;
  serialized = false;
  savepoint_func = none;
}

abbrev change : CtxFunc Marked ℕ
change ctx w = (
  returned (some serialization_failure),
  record w { store = record { content = 9; marks = w.store.marks } },
)

abbrev start : World Marked
start = record { tx_counter = 1; savepoint_counter = 4; store = record { content = 5; marks = [] } }

transaction_savepoint-Restores_example :
    Restores marking 1
      (λ s. s.content)
      (λ s. s.marks)
      (change in_transaction)
      start
      (transaction_savepoint marking 0 in_transaction change start)
transaction_savepoint-Restores_example =
    transaction_savepoint-Restores marking 0 (λ s. s.content) (λ s. s.marks) in_transaction change
      start marking-HasSavepoints refl refl refl (λ w. ([], refl, tt))
