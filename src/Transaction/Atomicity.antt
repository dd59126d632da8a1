-- ===== src/Transaction/Atomicity.antt =====
-- All or nothing: what others see of the store after a transaction.
use go_sqldb.Prelude.{
  ℕ, ◌≡◌, ◌≢◌, refl, sym, ◌∙◌, ◌⊎◌, inl, inr, Option, none, some, Error, Result, ok, err, ap,
}
use go_sqldb.Transaction.{
  Connection, World, TxOptions, TxFunc, Outcome, returned, panicked, next_transaction_id, finish,
  run_begun, isolated_transaction, after_commit,
}

module _ {S C V : Type 0} (conn : Connection S C) (view : S → V) (pending : C → S → V) where
  -- What a database promises of its transactions: Begin and Rollback change nothing that others
  -- see, and Commit publishes the pending state, or fails and publishes nothing.
  pub record IsTransactional : Type 0 where
    pub begin_keeps :
        (c : C) (id : ℕ) (opts : Option TxOptions) (s : S)
        → view (conn.begin c id opts s).1 ≡ view s
    pub rollback_keeps : (c : C) (s : S) → view (conn.rollback c s).1 ≡ view s
    pub commit_publishes :
        (c : C) (s : S) → (conn.commit c s).0 ≡ none → view (conn.commit c s).1 ≡ pending c s
    pub commit_fails :
        (c : C) (s : S) (e : Error)
        → (conn.commit c s).0 ≡ some e
        → view (conn.commit c s).1 ≡ view s

  -- Others see nothing of what a function does before the commit.
  abbrev pub IsIsolated : TxFunc S C → Type 0
  IsIsolated tx_func = (c : C) (w : World S) → view (tx_func c w).1.store ≡ view w.store

  -- Nothing happened, as far as others see, and the caller is told so; or the function returned
  -- no error on a transaction, the caller gets none, and what was pending then is published.
  abbrev pub AllOrNothing : TxFunc S C → World S → Outcome × World S → Type 0
  AllOrNothing tx_func w r =
      (r.0 ≢ returned none) × (view r.1.store ≡ view w.store)
      ⊎ ((tx : C) × (begun : World S) × (r.0 ≡ returned none)
          × ((tx_func tx begun).0 ≡ returned none)
          × (view r.1.store ≡ pending tx (tx_func tx begun).1.store))

  -- The same for one transaction and the world behind its Begin.
  abbrev EndsWith : C → World S → TxFunc S C → World S → Outcome × World S → Type 0
  EndsWith tx begun tx_func w r =
      (r.0 ≢ returned none) × (view r.1.store ≡ view w.store)
      ⊎ ((r.0 ≡ returned none)
          × ((tx_func tx begun).0 ≡ returned none)
          × (view r.1.store ≡ pending tx (tx_func tx begun).1.store))

  finish-EndsWith :
      (law : IsTransactional) (id : ℕ) (tx : C) (tx_func : TxFunc S C) (w begun : World S)
      (r : Outcome × World S)
      → tx_func tx begun ≡ r
      → view r.1.store ≡ view w.store
      → EndsWith tx begun tx_func w (finish conn id tx r)
  unfolding finish
  finish-EndsWith law id tx tx_func w begun (panicked p, we) e v =
      inl (λ h. cc, law.rollback_keeps tx we.store ∙ v)
  finish-EndsWith law id tx tx_func w begun (returned (some c), we) e v =
      inl (λ h. cc, law.rollback_keeps tx we.store ∙ v)
  finish-EndsWith law id tx tx_func w begun (returned none, we) e v =
      committed (conn.commit tx we.store).0 refl
    where
      committed :
          (o : Option Error)
          → (conn.commit tx we.store).0 ≡ o
          → EndsWith tx begun tx_func w (finish conn id tx (returned none, we))
      committed none k = inr (
        ap (λ (o : Option Error). returned (after_commit id o)) k,
        ap (λ (r : Outcome × World S). r.0) e,
        law.commit_publishes tx we.store k
            ∙ ap (λ (r : Outcome × World S). pending tx r.1.store) (sym e),
      )
      committed (some x) k = inl (λ h. cc, law.commit_fails tx we.store x k ∙ v)

  EndsWith-AllOrNothing :
      (tx : C) (begun : World S) (tx_func : TxFunc S C) (w : World S) (r : Outcome × World S)
      → EndsWith tx begun tx_func w r
      → AllOrNothing tx_func w r
  EndsWith-AllOrNothing tx begun tx_func w r (inl p) = inl p
  EndsWith-AllOrNothing tx begun tx_func w r (inr (e, f, v)) = inr (tx, begun, e, f, v)

  run_begun-AllOrNothing :
      (law : IsTransactional) (id : ℕ) (tx_func : TxFunc S C) (w w₁ : World S) (r : Result C × S)
      → IsIsolated tx_func
      → view r.1 ≡ view w.store
      → AllOrNothing tx_func w (run_begun conn id tx_func w₁ r)
  unfolding run_begun
  run_begun-AllOrNothing law id tx_func w w₁ (err e, s) iso v = inl (λ h. cc, v)
  run_begun-AllOrNothing law id tx_func w w₁ (ok tx, s) iso v =
      let begun = record w₁ { store = s } in
      EndsWith-AllOrNothing tx begun tx_func w (finish conn id tx (tx_func tx begun))
        (finish-EndsWith law id tx tx_func w begun (tx_func tx begun) refl (iso tx begun ∙ v))

  pub isolated_transaction-AllOrNothing :
      (law : IsTransactional) (parent_conn : C) (opts : Option TxOptions) (tx_func : TxFunc S C)
      (w : World S)
      → IsIsolated tx_func
      → AllOrNothing tx_func w (isolated_transaction conn parent_conn opts tx_func w)
  unfolding isolated_transaction next_transaction_id
  isolated_transaction-AllOrNothing law parent_conn opts tx_func w iso =
      let (id, w₁) = next_transaction_id w in
      run_begun-AllOrNothing law id tx_func w w₁ (conn.begin parent_conn id opts w.store) iso
        (law.begin_keeps parent_conn id opts w.store)

  -- What a call on a connection says of the transaction that it has begun there, where `ran` says what
  -- was done between two of its stores: if the caller gets an error or a panic, others see the store as
  -- it was; and if the caller gets no error, Begin gave a transaction, `ran` holds of it from the store
  -- behind Begin on, and what is pending behind that is published.
  abbrev pub AllRanOrNothing :
      C → Option TxOptions → (C → S → S → Type 0) → World S → Outcome × World S → Type 0
  AllRanOrNothing parent_conn opts ran w r =
      (r.0 ≢ returned none) × (view r.1.store ≡ view w.store)
      ⊎ ((id : ℕ) × (tx : C) × (begun done : S) × (conn.begin parent_conn id opts w.store
            ≡ (ok tx, begun))
          × (r.0 ≡ returned none)
          × ran tx begun done
          × (view r.1.store ≡ pending tx done))

  run_begun-AllRanOrNothing :
      (law : IsTransactional) (parent_conn : C) (opts : Option TxOptions) (id : ℕ)
      (ran : C → S → S → Type 0) (tx_func : TxFunc S C) (w w₁ : World S) (r : Result C × S)
      → IsIsolated tx_func
      → ((tx : C) (begun : World S)
          → (tx_func tx begun).0 ≡ returned none
          → ran tx begun.store (tx_func tx begun).1.store)
      → conn.begin parent_conn id opts w.store ≡ r
      → AllRanOrNothing parent_conn opts ran w (run_begun conn id tx_func w₁ r)
  unfolding run_begun
  run_begun-AllRanOrNothing law parent_conn opts id ran tx_func w w₁ (err e, s) iso h b = inl (
    λ h. cc,
    ap (λ (r : Result C × S). view r.1) (sym b) ∙ law.begin_keeps parent_conn id opts w.store,
  )
  run_begun-AllRanOrNothing law parent_conn opts id ran tx_func w w₁ (ok tx, s) iso h b =
      let begun = record w₁ { store = s } in
      let kept =
        ap (λ (r : Result C × S). view r.1) (sym b) ∙ law.begin_keeps parent_conn id opts w.store in
      elim (finish-EndsWith law id tx tx_func w begun (tx_func tx begun) refl
        (iso tx begun ∙ kept)) [
          | inl p ↦ inl p
          | inr (e, f, v) ↦ inr (id, tx, s, (tx_func tx begun).1.store, b, e, h tx begun f, v)
        ]

  pub isolated_transaction-AllRanOrNothing :
      (law : IsTransactional) (parent_conn : C) (opts : Option TxOptions) (ran : C → S → S → Type 0)
      (tx_func : TxFunc S C) (w : World S)
      → IsIsolated tx_func
      → ((tx : C) (begun : World S)
          → (tx_func tx begun).0 ≡ returned none
          → ran tx begun.store (tx_func tx begun).1.store)
      → AllRanOrNothing parent_conn opts ran w
          (isolated_transaction conn parent_conn opts tx_func w)
  unfolding isolated_transaction next_transaction_id
  isolated_transaction-AllRanOrNothing law parent_conn opts ran tx_func w iso h =
      let (id, w₁) = next_transaction_id w in
      run_begun-AllRanOrNothing law parent_conn opts id ran tx_func w w₁
        (conn.begin parent_conn id opts w.store) iso h refl
