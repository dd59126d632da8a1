-- ===== src/Insert/Delivery.antt =====
-- What the database receives from `InsertRowStructs`: a driver that refuses statements with more
-- than `max_args` arguments, and keeps the arguments of those that it executes.
pub mod Whole
pub mod Complete
use mathlib.Core.Path.{subst}
use go_sqldb.Prelude.{
  ℕ, zero, suc, ◌+◌, ◌-◌, ◌*◌, ◌≤◌, ◌<◌, ◌≡◌, refl, sym, ◌∙◌, ap, arith, Bool, true, false, List,
  [], ◌∷◌, ◌++◌, Option, none, some, Bytes, length, take, drop, leb, ◌==◌, if◌then◌else◌, Error,
  driver, Result, ok, err, append_assoc, append-nil, length-append,
}
use go_sqldb.Value.{Value}
use go_sqldb.Formatter.{QueryFormatter}
use go_sqldb.Builder.{ColumnInfo, QueryBuilder}
use go_sqldb.Transaction.{Connection, World, Outcome, returned}
use go_sqldb.Action.{Action, ◌>>=◌, ◌>>◌, pure, lift, continue}
use go_sqldb.Insert.{
  StructReflector, Batching, row_values, collect_values, slice, batching, no_columns,
}
use go_sqldb.Insert.Run.{exec_wrapped, stmt_exec_wrapped, exec_batch, exec_batches, insert_batches}
use go_sqldb.Insert.Rows.{
  all_values, Yields, collect_values-all_values, length-all_values, length-take_le,
  take-drop_append, drop-drop, first_batch, next_batch, last_batch,
}

abbrev pub limited : ℕ → List Value → List Value → Option Error × List Value
limited max_args args s =
    if leb (length args) max_args then (none, s ++ args) else (some (driver 0), s)

-- A connection is the number of its transaction.
abbrev pub receiver : ℕ → Connection (List Value) ℕ
receiver max_args = record {
  transaction = λ c. record { id = c; opts = none };
  default_isolation_level = λ c. 0;
  begin = λ c id opts s. (ok id, s);
  commit = λ c s. (none, s);
  rollback = λ c s. (none, s);
  exec = λ c query args s. limited max_args args s;
  prepare = λ c query s. (ok 1, s);
  stmt_exec = λ c stmt args s. limited max_args args s;
  stmt_close = λ c stmt s. (none, s);
}

module _ {R I : Type 0} (r : StructReflector R I) (vals : R → List Value) (num_cols max_args : ℕ)
    (y : Yields r vals num_cols) (builder : QueryBuilder) (fmtr : QueryFormatter)
    (rows : List R) where
  -- The action succeeds, and sends the values of the rows from the `a`-th to before the `b`-th.
  abbrev pub Sends : {A : Type 0} → Action (List Value) A → ℕ → ℕ → Type 0
  Sends {A} m a b =
      (w : World (List Value))
      → (x : A) × (w' : World (List Value)) × (m w ≡ (ok x, w'))
        × (w'.store ++ all_values vals (drop b rows) ≡ w.store ++ all_values vals (drop a rows))

  pub >>=-Sends :
      {A B : Type 0} (m : Action (List Value) A) (f : A → Action (List Value) B) (a b c : ℕ)
      → Sends m a b
      → ((x : A) → Sends (f x) b c)
      → Sends (m >>= f) a c
  >>=-Sends m f a b c p q w =
      let (x, w', e, s) = p w in let (x', w'', e', s') = q x w' in (x', w'', rw e e', s' ∙ s)

  pub Sends-at :
      {A : Type 0} (m : Action (List Value) A) {a b a' b' : ℕ}
      → a ≡ a'
      → b ≡ b'
      → Sends m a b
      → Sends m a' b'
  Sends-at m {a} {b} {a'} {b'} p q s =
      subst (λ (n : ℕ). Sends m n b') p (subst (λ (n : ℕ). Sends m a n) q s)

  continue_assoc :
      {A B D : Type 0} (f : A → Action (List Value) B) (g : B → Action (List Value) D)
      (p : Result A × World (List Value))
      → continue g (continue f p) ≡ continue (λ x. f x >>= g) p
  continue_assoc f g (ok x, w) = refl
  continue_assoc f g (err e, w) = refl

  -- The same with a part of the rows collected first.
  >>=-Sends_assoc :
      {A B D : Type 0} (m : Action (List Value) A) (f : A → Action (List Value) B)
      (g : B → Action (List Value) D) (a b c : ℕ)
      → Sends (m >>= f) a b
      → ((x : B) → Sends (g x) b c)
      → Sends (m >>= λ x. f x >>= g) a c
  >>=-Sends_assoc m f g a b c p q w =
      let (x, w', e, s) = >>=-Sends (m >>= f) g a b c p q w in
      (x, w', sym (continue_assoc f g (m w)) ∙ e, s)

  pub nothing-Sends : (a : ℕ) → Sends (pure tt) a a
  nothing-Sends a w = (tt, w, refl, refl)

  slice-take : (a k : ℕ) → slice rows a (a + k) ≡ take k (drop a rows)
  slice-take a k = ap (λ (n : ℕ). take n (drop a rows)) (omega arith)

  fits_limit :
      (k : ℕ) (part : List R)
      → k * num_cols ≤ max_args
      → leb (length (all_values vals (take k part))) max_args ≡ true
  fits_limit k part h =
      let short = length-take_le k part in
      let counted = length-all_values y (take k part) in grind arith

  sent :
      (before : List Value) (a k : ℕ)
      → (before ++ all_values vals (take k (drop a rows))) ++ all_values vals (drop (a + k) rows)
        ≡ before ++ all_values vals (drop a rows)
  sent before a k =
      append_assoc before _ _
      ∙ ap (λ (l : List Value). before ++ l)
          (ap (λ (l : List R). all_values vals (take k (drop a rows)) ++ all_values vals l)
              (sym (drop-drop a k rows))
            ∙ take-drop_append vals k (drop a rows))

  exec_wrapped-fits :
      (c : ℕ) (query : Bytes) (args : List Value) (w : World (List Value))
      → leb (length args) max_args ≡ true
      → exec_wrapped (receiver max_args) r builder fmtr c query args w
        ≡ (ok tt, record w { store = w.store ++ args })
  unfolding exec_wrapped
  exec_wrapped-fits c query args w h = rw h refl

  stmt_exec_wrapped-fits :
      (c stmt : ℕ) (query : Bytes) (args : List Value) (w : World (List Value))
      → leb (length args) max_args ≡ true
      → stmt_exec_wrapped (receiver max_args) r builder fmtr c stmt query args w
        ≡ (ok tt, record w { store = w.store ++ args })
  unfolding stmt_exec_wrapped
  stmt_exec_wrapped-fits c stmt query args w h = rw h refl

  -- A part of the rows is collected, and an action that executes with the arguments sends them.
  collected-Sends :
      (run : List Value → Action (List Value) (Unit {0})) (a k : ℕ)
      → k * num_cols ≤ max_args
      → ((args : List Value) (w : World (List Value))
          → leb (length args) max_args ≡ true
          → run args w ≡ (ok tt, record w { store = w.store ++ args }))
      → Sends (lift (collect_values r (slice rows a (a + k)) []) >>= run) a (a + k)
  collected-Sends run a k h runs w =
      let part = take k (drop a rows) in
      (
        tt,
        record w { store = w.store ++ all_values vals part },
        rw (slice-take a k, collect_values-all_values y part [])
            (runs (all_values vals part) w (fits_limit k (drop a rows) h)),
        sent w.store a k,
      )

  pub exec_batch-Sends :
      (c : ℕ) (query : Bytes) (a k : ℕ)
      → k * num_cols ≤ max_args
      → Sends
          (exec_batch (receiver max_args) r builder fmtr c query (slice rows a (a + k)))
          a
          (a + k)
  unfolding exec_batch
  exec_batch-Sends c query a k h =
      collected-Sends (exec_wrapped (receiver max_args) r builder fmtr c query) a k h
        (exec_wrapped-fits c query)

  pub exec_batches-Sends :
      (c stmt : ℕ) (query : Bytes) (k n batch : ℕ)
      → k * num_cols ≤ max_args
      → Sends
          (exec_batches (receiver max_args) r builder fmtr c stmt query rows k n batch)
          (batch * k)
          ((batch + n) * k)
  unfolding exec_batches
  exec_batches-Sends c stmt query k zero batch h =
      Sends-at (pure tt) refl (first_batch batch k) (nothing-Sends (batch * k))
  exec_batches-Sends c stmt query k (suc n) batch h =
      >>=-Sends_assoc (lift (collect_values r (slice rows (batch * k) (batch * k + k)) []))
        (stmt_exec_wrapped (receiver max_args) r builder fmtr c stmt query)
        (λ _. exec_batches (receiver max_args) r builder fmtr c stmt query rows k n (batch + 1))
        (batch * k) (batch * k + k) ((batch + suc n) * k)
        (collected-Sends _ (batch * k) k h (stmt_exec_wrapped-fits c stmt query))
        (λ _.
          Sends-at _ (next_batch batch k) (last_batch batch n k)
            (exec_batches-Sends c stmt query k n (batch + 1) h))
