-- ===== src/Db/Savepoint/Restore.antt =====
-- What a savepoint keeps of the database when the function behind it fails.
use mathlib.Core.Path.{subst}
use go_sqldb.Prelude.{
  ◌≡◌, ◌≢◌, refl, sym, ◌∙◌, ap, ◌⊎◌, inl, inr, true, false, List, [], ◌∷◌, ◌++◌, All, Option, none,
  some, Bytes, codes, Error,
}
use go_sqldb.Transaction.{Connection, World, Outcome, returned, panicked, active}
use go_sqldb.Db.Context.{Context, conn_of}
use go_sqldb.Db.Transaction.{CtxFunc}
use go_sqldb.Db.Savepoint.{
  next_savepoint, end_savepoint, run_in_savepoint, with_savepoint, transaction_savepoint,
  counted_savepoint,
}

module _ {S C D : Type 0} (conn : Connection S C) (c : C) (content : S → D)
    (marks : S → List (Bytes × D)) where
  -- No mark of these has the name.
  abbrev pub Free : Bytes → List (Bytes × D) → Type 0
  Free savepoint later = All (λ mark. mark.0 ≢ savepoint) later

  -- What a database promises of savepoints on a connection. `content` is what the transaction sees,
  -- and `marks` are its savepoints with the content that each has kept, the latest first.
  pub record HasSavepoints : Type 0 where
    pub sets :
        (savepoint : Bytes) (s : S)
        → (conn.exec c (codes "savepoint " ++ savepoint) [] s).0 ≡ none
        → (content (conn.exec c (codes "savepoint " ++ savepoint) [] s).1 ≡ content s)
          × (marks (conn.exec c (codes "savepoint " ++ savepoint) [] s).1
              ≡ (savepoint, content s) ∷ marks s)
    pub sets_nothing :
        (savepoint : Bytes) (s : S) (e : Error)
        → (conn.exec c (codes "savepoint " ++ savepoint) [] s).0 ≡ some e
        → content (conn.exec c (codes "savepoint " ++ savepoint) [] s).1 ≡ content s
    pub rolls_back :
        (savepoint : Bytes) (kept : D) (later earlier : List (Bytes × D)) (s : S)
        → marks s ≡ later ++ (savepoint, kept) ∷ earlier
        → Free savepoint later
        → ((conn.exec c (codes "rollback to " ++ savepoint) [] s).0 ≡ none)
          × (content (conn.exec c (codes "rollback to " ++ savepoint) [] s).1 ≡ kept)
    pub releases :
        (savepoint : Bytes) (s : S)
        → content (conn.exec c (codes "release savepoint " ++ savepoint) [] s).1 ≡ content s

  -- The function leaves the savepoints that it finds, and sets none of this name.
  abbrev pub KeepsMarks : Bytes → (World S → Outcome × World S) → Type 0
  KeepsMarks savepoint f =
      (w : World S)
      → (later : List (Bytes × D)) × (marks (f w).1.store ≡ later ++ marks w.store)
        × Free savepoint later

  -- An error, and the content as it was; or the function ran from this content, gave no error, and
  -- the content is what it left.
  abbrev pub Restores : (World S → Outcome × World S) → World S → Outcome × World S → Type 0
  Restores f w p =
      ((e : Error) × (p.0 ≡ returned (some e)) × (content p.1.store ≡ content w.store))
      ⊎ ((begun : World S) × (content begun.store ≡ content w.store)
          × ((e : Error) → (f begun).0 ≢ returned (some e))
          × (content p.1.store ≡ content (f begun).1.store))

  end_savepoint-Restores :
      (law : HasSavepoints) (savepoint : Bytes) (f : World S → Outcome × World S)
      (w begun : World S) (later : List (Bytes × D)) (p : Outcome × World S)
      → f begun ≡ p
      → content begun.store ≡ content w.store
      → marks p.1.store ≡ later ++ (savepoint, content w.store) ∷ marks w.store
      → Free savepoint later
      → Restores f w (end_savepoint conn c savepoint p)
  unfolding end_savepoint
  end_savepoint-Restores law savepoint f w begun later (panicked x, v) e same kept free =
      inr (begun, same, (λ x' h. cc), ap (λ (q : Outcome × World S). content q.1.store) (sym e))
  end_savepoint-Restores law savepoint f w begun later (returned none, v) e same kept free = inr (
    begun,
    same,
    (λ x' h. cc),
    law.releases savepoint v.store ∙ ap (λ (q : Outcome × World S). content q.1.store) (sym e),
  )
  end_savepoint-Restores law savepoint f w begun later (returned (some cause), v) e same kept free =
      inl (_, refl, (law.rolls_back savepoint _ later _ v.store kept free).1)

  run_in_savepoint-Restores :
      (law : HasSavepoints) (savepoint : Bytes) (f : World S → Outcome × World S)
      → KeepsMarks savepoint f
      → (w : World S) (p : Option Error × World S) → content p.1.store ≡ content w.store
      → (p.0 ≡ none → marks p.1.store ≡ (savepoint, content w.store) ∷ marks w.store)
      → Restores f w (run_in_savepoint conn c savepoint f p)
  run_in_savepoint-Restores law savepoint f keeps w (some e, v) same set = inl (e, refl, same)
  run_in_savepoint-Restores law savepoint f keeps w (none, v) same set =
      let (later, kept, free) = keeps v in
      end_savepoint-Restores law savepoint f w v later (f v) refl same
        (kept ∙ ap (λ (l : List (Bytes × D)). later ++ l) (set refl)) free

  Restores-at :
      (f : World S → Outcome × World S) (v w : World S)
      → v.store ≡ w.store
      → (p : Outcome × World S) → Restores f v p
      → Restores f w p
  Restores-at f v w h p (inl (e, failed, same)) = inl (e, failed, same ∙ ap content h)
  Restores-at f v w h p (inr (begun, same, fine, left)) =
      inr (begun, same ∙ ap content h, fine, left)

  with_savepoint-Restores :
      (law : HasSavepoints) (savepoint : Bytes) (f : World S → Outcome × World S)
      → KeepsMarks savepoint f
      → (w : World S) → Restores f w (with_savepoint conn c savepoint f w)
  unfolding with_savepoint
  with_savepoint-Restores law savepoint f keeps w =
      run_in_savepoint-Restores law savepoint f keeps w _ (same_content _ refl)
        (λ h. (law.sets savepoint w.store h).1)
    where
      same_content :
          (o : Option Error)
          → (conn.exec c (codes "savepoint " ++ savepoint) [] w.store).0 ≡ o
          → content (conn.exec c (codes "savepoint " ++ savepoint) [] w.store).1 ≡ content w.store
      same_content none h = (law.sets savepoint w.store h).0
      same_content (some e) h = law.sets_nothing savepoint w.store e h

module _ {S C D : Type 0} (conn : Connection S C) (global_conn : C) (content : S → D)
    (marks : S → List (Bytes × D)) where
  runs_behind :
      (ctx : Context S C) (tx_func : CtxFunc S C) (w : World S)
      → ctx.without_transactions ≡ false
      → active (conn.transaction (conn_of conn global_conn ctx)) ≡ true
      → transaction_savepoint conn global_conn ctx tx_func w
        ≡ with_savepoint conn
            (conn_of conn global_conn ctx)
            (next_savepoint ctx w).0
            (tx_func ctx)
            (next_savepoint ctx w).1
  unfolding transaction_savepoint
  runs_behind ctx tx_func w with_tx inside = simp (with_tx, inside)

  next_savepoint-store :
      (ctx : Context S C) (w : World S)
      → ctx.savepoint_func ≡ none
      → (next_savepoint ctx w).1.store ≡ w.store
  unfolding next_savepoint counted_savepoint
  next_savepoint-store ctx w h = rw h refl

  -- On a connection in a transaction whose database keeps its promises of savepoints, with the
  -- counted names, and for a function that leaves the savepoints that it finds and sets none of the
  -- new name: either TransactionSavepoint returns an error and the transaction sees the content
  -- from before the call, or the function ran from that content without returning an error, and
  -- the transaction sees the content that it left, after a panic, too.
  pub transaction_savepoint-Restores :
      (ctx : Context S C) (tx_func : CtxFunc S C) (w : World S)
      → HasSavepoints conn (conn_of conn global_conn ctx) content marks
      → ctx.without_transactions ≡ false
      → active (conn.transaction (conn_of conn global_conn ctx)) ≡ true
      → ctx.savepoint_func ≡ none
      → KeepsMarks conn
          (conn_of conn global_conn ctx)
          content
          marks
          (next_savepoint ctx w).0
          (tx_func ctx)
      → Restores conn
          (conn_of conn global_conn ctx)
          content
          marks
          (tx_func ctx)
          w
          (transaction_savepoint conn global_conn ctx tx_func w)
  unfolding transaction_savepoint
  transaction_savepoint-Restores ctx tx_func w law with_tx inside counted keeps =
      let c = conn_of conn global_conn ctx in
      let (savepoint, v) = next_savepoint ctx w in
      subst (λ (p : Outcome × World S). Restores conn c content marks (tx_func ctx) w p)
        (sym (runs_behind ctx tx_func w with_tx inside))
        (Restores-at conn c content marks (tx_func ctx) v w (next_savepoint-store ctx w counted)
          (with_savepoint conn c savepoint (tx_func ctx) v)
          (with_savepoint-Restores conn c content marks law savepoint (tx_func ctx) keeps v))
