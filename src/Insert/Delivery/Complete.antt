-- ===== src/Insert/Delivery/Complete.antt =====
-- `InsertRowStructs` as a whole: what has arrived when it returns.
use go_sqldb.Prelude.{
  ℕ, zero, suc, ◌+◌, ◌*◌, ◌≤◌, ◌≡◌, refl, sym, ◌∙◌, ap, arith, Bool, Bool-cases, ◌&&◌, and_true,
  inl, inr, true, List, ◌∷◌, ◌++◌, Option, none, some, Bytes, length, leb, ◌==◌, Result, ok,
  append-nil,
}
use go_sqldb.Value.{Value}
use go_sqldb.Formatter.{QueryFormatter}
use go_sqldb.Builder.{ColumnInfo, QueryBuilder}
use go_sqldb.Transaction.{
  World, Outcome, returned, panicked, transaction, isolated_transaction, run_begun, finish,
  next_transaction_id,
}
use go_sqldb.Action.{Action, as_outcome, to_error}
use go_sqldb.Insert.{StructReflector, QueryCache, Batching, plan_batches}
use go_sqldb.Insert.Run.{outcome_of}
use go_sqldb.Insert.Batches.{IsPlan, fits, batching-IsPlan}
use go_sqldb.Insert.Run.{insert_planned, insert_row_structs}
use go_sqldb.Insert.Delivery.{Sends, receiver}
use go_sqldb.Insert.Rows.{Yields, all_values, drop-all}
use go_sqldb.Insert.Delivery.Whole.{Writes, insert_batches-Sends, insert_single_batch-Sends}

-- The caller gets no error, and the arguments that arrived behind the earlier ones are these.
abbrev pub Delivered : List Value → List Value → Outcome × World (List Value) → Type 0
Delivered before args p = (p.0 ≡ returned none) × (p.1.store ≡ before ++ args)

module _ (max_args : ℕ) where
  finish-Delivered :
      (id tx : ℕ) (before args : List Value) (p : Outcome × World (List Value))
      → Delivered before args p
      → Delivered before args (finish (receiver max_args) id tx p)
  unfolding finish
  finish-Delivered id tx before args (returned none, w) (h, s) = (refl, s)
  finish-Delivered id tx before args (returned (some e), w) (h, s) = absurd cc
  finish-Delivered id tx before args (panicked p, w) (h, s) = absurd cc

  transaction-Delivered :
      (f : ℕ → World (List Value) → Outcome × World (List Value)) (args : List Value)
      (w : World (List Value))
      → ((tx : ℕ) (w' : World (List Value)) → Delivered w'.store args (f tx w'))
      → Delivered w.store args (transaction (receiver max_args) 0 none f w)
  unfolding transaction isolated_transaction next_transaction_id run_begun
  transaction-Delivered f args w h = finish-Delivered _ _ w.store args _ (h _ _)

at_most_batch : (f k rem t : ℕ) → leb f 1 ≡ true → (rem == 0) ≡ true → f * k + rem ≡ t → t ≤ k
at_most_batch zero k rem t p q r = grind arith
at_most_batch (suc zero) k rem t p q r = grind arith
at_most_batch (suc (suc f)) k rem t p q r = absurd (ground arith)

one_batch_fits :
    (f k rem t cols m : ℕ)
    → leb f 1 ≡ true
    → (rem == 0) ≡ true
    → f * k + rem ≡ t
    → k * cols ≤ m
    → t * cols ≤ m
one_batch_fits f k rem t cols m p q r h = fits t k cols m (at_most_batch f k rem t p q r) h

module _ {R I : Type 0} (r : StructReflector R I) (vals : R → List Value) (builder : QueryBuilder)
    (fmtr : QueryFormatter) (table : Bytes) (columns : List ColumnInfo)
    (y : Yields r vals (length columns)) (q : Writes builder fmtr table columns) where
  Sends-Delivered :
      {m : Action (List Value) (Unit {0})} (rows : List R) (w : World (List Value))
      → Sends r vals (length columns) fmtr.max_args y builder fmtr rows m 0 (length rows)
      → Delivered w.store (all_values vals rows) (as_outcome m w)
  Sends-Delivered {m} rows w s =
      let (x, w', e, sent) = s w in
      (
        ap (λ (p : Result (Unit {0}) × World (List Value)). returned (to_error p.0)) e,
        ap (λ (p : Result (Unit {0}) × World (List Value)). p.1.store) e
            ∙ sym (append-nil w'.store)
            ∙ ap (λ (l : List R). w'.store ++ all_values vals l)
                (sym (drop-all (length rows) rows (omega arith)))
            ∙ sent,
      )

  insert_planned-Delivered :
      (rows : List R) (b : Batching) (w : World (List Value))
      → IsPlan fmtr.max_args (length columns) (length rows) b
      → 1 ≤ length rows
      → Delivered w.store
          (all_values vals rows)
          (insert_planned (receiver fmtr.max_args) r builder fmtr 0 table columns rows b w)
  unfolding IsPlan
  insert_planned-Delivered rows b w (k, h, total, less) pos =
      elim (Bool-cases (leb b.num_full_batches 1 && b.num_remainder_rows == 0)) [
        | inl single ↦
            let (few, whole) = and_true _ _ single in
            rw single (
              Sends-Delivered rows w (
                insert_single_batch-Sends r vals (length columns) fmtr.max_args y builder fmtr rows
                  table columns q 0 pos
                  (one_batch_fits _ b.rows_per_batch _ _ _ _ few whole total h)))
        | inr several ↦ rw several (
            transaction-Delivered fmtr.max_args _ (all_values vals rows) w λ tx w'.
              Sends-Delivered rows w' (
                insert_batches-Sends r vals (length columns) fmtr.max_args y builder fmtr rows table
                  columns q b tx (k, h, total, less)))
      ]

  found-IsPlan :
      (n : ℕ)
      → r.reflect_struct_columns ≡ ok columns
      → r.table_name_for_struct ≡ ok table
      → 1 ≤ length columns
      → length columns ≤ fmtr.max_args
      → 1 ≤ n
      → (b : Batching) × (plan_batches r fmtr n ≡ ok (table, columns, b))
        × IsPlan fmtr.max_args (length columns) n b
  unfolding plan_batches
  found-IsPlan n hc ht some_column fits_one pos =
      let (b, e, plan) =
        batching-IsPlan fmtr.max_args (length columns) n some_column fits_one pos in
      (b, rw (hc, ht, e) refl, plan)

  -- A driver that takes at most MaxArgs arguments for a statement, a struct with columns, as many
  -- as MaxArgs at most, whose rows are reflected as one value for each column, and a builder that
  -- writes the queries. Then InsertRowStructs of two rows or more, outside a transaction, returns
  -- no error, and the arguments that the driver has executed then are all the values of all the
  -- rows, once and in their order, however they are split into statements.
  pub insert_row_structs-Delivered :
      r.reflect_struct_columns ≡ ok columns
      → r.table_name_for_struct ≡ ok table
      → 1 ≤ length columns
      → length columns ≤ fmtr.max_args
      → (use_cache : Bool) (slot : Option (QueryCache I)) (row row' : R) (rows : List R)
        (w : World (List Value))
      → Delivered w.store (all_values vals (row ∷ row' ∷ rows)) (
          outcome_of (
            insert_row_structs
              (receiver fmtr.max_args)
              r
              builder
              fmtr
              0
              use_cache
              slot
              (row ∷ row' ∷ rows)
              w))
  unfolding insert_row_structs
  insert_row_structs-Delivered hc ht some_column fits_one use_cache slot row row' rows w =
      let (b, e, plan) =
        found-IsPlan (length (row ∷ row' ∷ rows)) hc ht some_column fits_one (omega arith) in
      rw e (insert_planned-Delivered (row ∷ row' ∷ rows) b w plan (omega arith))
