-- ===== src/Insert/Delivery/Whole.antt =====
-- `InsertRowStructs` on two rows or more, as a whole: single batches and transactions.
use mathlib.Core.Path.{subst}
use go_sqldb.Prelude.{
  ℕ, ◌+◌, ◌*◌, ◌≤◌, ◌<◌, ◌≡◌, ap, arith, Bool-cases, inl, inr, true, false, List, Bytes, length,
  leb, ◌==◌, Result, ok,
}
use go_sqldb.Value.{Value}
use go_sqldb.Formatter.{QueryFormatter}
use go_sqldb.Builder.{ColumnInfo, QueryBuilder}
use go_sqldb.Transaction.{World}
use go_sqldb.Action.{Action, ◌>>=◌}
use go_sqldb.Insert.{StructReflector, Batching, slice}
use go_sqldb.Insert.Batches.{IsPlan}
use go_sqldb.Insert.Run.{
  exec_prepared, exec_batch, full_batches, insert_query, insert_remainder, insert_batches,
  insert_single_batch, close_after,
}
use go_sqldb.Insert.Delivery.{
  Sends, Sends-at, receiver, exec_batches-Sends, exec_batch-Sends, nothing-Sends, >>=-Sends,
}
use go_sqldb.Insert.Rows.{Yields}

-- The builder writes a query for any number of rows.
pub record Writes (builder : QueryBuilder) (fmtr : QueryFormatter) (table : Bytes)
    (columns : List ColumnInfo) : Type 0 where
  pub query : ℕ → Bytes
  pub writes : (n : ℕ) → 1 ≤ n → builder.insert_rows fmtr table columns n ≡ ok (query n)

zero-mul : (k : ℕ) → 0 * k ≡ 0
zero-mul k = omega arith

zero_add-mul : (n k : ℕ) → (0 + n) * k ≡ n * k
zero_add-mul n k = omega arith

zero_add : (k : ℕ) → 0 + k ≡ k
zero_add k = omega arith

one_batch : (f k : ℕ) → (f == 1) ≡ true → k ≡ f * k
one_batch f k h = grind arith

no_batch : (f k : ℕ) → leb 2 f ≡ false → (f == 1) ≡ false → 0 ≡ f * k
no_batch f k h h' = grind arith

shorter : (n k cols m : ℕ) → n < k → k * cols ≤ m → n * cols ≤ m
shorter n k cols m h h' = grind arith

all_sent : (a n t : ℕ) → (n == 0) ≡ true → a + n ≡ t → a ≡ t
all_sent a n t h h' = ground arith

some_rows : (n : ℕ) → (n == 0) ≡ false → 1 ≤ n
some_rows n h = ground arith

module _ {R I : Type 0} (r : StructReflector R I) (vals : R → List Value) (num_cols max_args : ℕ)
    (y : Yields r vals num_cols) (builder : QueryBuilder) (fmtr : QueryFormatter)
    (rows : List R) where
  exec_prepared-Sends :
      (c : ℕ) (query : Bytes) (k n : ℕ)
      → k * num_cols ≤ max_args
      → Sends r vals num_cols max_args y builder fmtr rows
          (exec_prepared (receiver max_args) r builder fmtr c query rows k n)
          0
          (n * k)
  unfolding exec_prepared
  exec_prepared-Sends c query k n h w =
      let (x, w', e, s) =
        Sends-at r vals num_cols max_args y builder fmtr rows _ (zero-mul k) (zero_add-mul n k)
          (exec_batches-Sends r vals num_cols max_args y builder fmtr rows c 1 query k n 0 h) w in
      (
        x,
        w',
        ap
            (λ (p : Result (Unit {0}) × World (List Value)).
              close_after (receiver max_args) r builder fmtr c 1 p)
            e,
        s,
      )

  abbrev Sent : {A : Type 0} → Action (List Value) A → ℕ → ℕ → Type 0
  Sent m a b = Sends r vals num_cols max_args y builder fmtr rows m a b

  ends :
      {A : Type 0} {m : Action (List Value) A} (a : ℕ) {b b' : ℕ}
      → b ≡ b'
      → Sent m a b
      → Sent m a b'
  ends {A} {m} a e s = subst (λ (n : ℕ). Sent m a n) e s

  first-Sends :
      (c : ℕ) (query : Bytes) (k : ℕ)
      → k * num_cols ≤ max_args
      → Sent (exec_batch (receiver max_args) r builder fmtr c query (slice rows 0 k)) 0 k
  first-Sends c query k h =
      subst
        (λ (n : ℕ).
          Sent (exec_batch (receiver max_args) r builder fmtr c query (slice rows 0 n)) 0 n)
        (zero_add k) (exec_batch-Sends r vals num_cols max_args y builder fmtr rows c query 0 k h)

  full_batches-Sends :
      (c : ℕ) (query : Bytes) (b : Batching)
      → b.rows_per_batch * num_cols ≤ max_args
      → Sent
          (full_batches (receiver max_args) r builder fmtr c query rows b)
          0
          (b.num_full_batches * b.rows_per_batch)
  full_batches-Sends c query b h = elim (Bool-cases (leb 2 b.num_full_batches)) [
    | inl many ↦ rw many (exec_prepared-Sends c query b.rows_per_batch b.num_full_batches h)
    | inr few ↦ elim (Bool-cases (b.num_full_batches == 1)) [
      | inl one ↦
          rw (few, one)
            (ends 0 (one_batch _ b.rows_per_batch one) (first-Sends c query b.rows_per_batch h))
      | inr other ↦
          rw (few, other)
            (ends 0 (no_batch _ b.rows_per_batch few other)
              (nothing-Sends r vals num_cols max_args y builder fmtr rows 0))
    ]
  ]

  module _ (table : Bytes) (columns : List ColumnInfo) (q : Writes builder fmtr table columns) where
    insert_query-Sends :
        {A : Type 0} (n a b : ℕ) (f : Bytes → Action (List Value) A)
        → 1 ≤ n
        → ((query : Bytes) → Sent (f query) a b)
        → Sent (insert_query (receiver max_args) r builder fmtr table columns n >>= f) a b
    insert_query-Sends n a b f h p w = rw (q.writes n h) (p (q.query n) w)

    remainder-Sends :
        (b : Batching) (c : ℕ)
        → b.rows_per_batch * num_cols ≤ max_args
        → b.num_remainder_rows < b.rows_per_batch
        → 1 ≤ b.num_remainder_rows
        → Sent
            (insert_remainder (receiver max_args) r builder fmtr table columns rows b c)
            (b.num_full_batches * b.rows_per_batch)
            (b.num_full_batches * b.rows_per_batch + b.num_remainder_rows)
    remainder-Sends b c h less pos = insert_query-Sends b.num_remainder_rows _ _ _ pos λ query.
        exec_batch-Sends r vals num_cols max_args y builder fmtr rows c query
          (b.num_full_batches * b.rows_per_batch) b.num_remainder_rows
          (shorter _ _ num_cols max_args less h)

    -- All batches in a transaction.
    pub insert_batches-Sends :
        (b : Batching) (c : ℕ)
        → IsPlan max_args num_cols (length rows) b
        → Sent
            (insert_batches (receiver max_args) r builder fmtr table columns rows b c)
            0
            (length rows)
    unfolding insert_batches IsPlan
    insert_batches-Sends b c (p, h, total, less) =
        insert_query-Sends b.rows_per_batch 0 (length rows) _ p λ query.
          >>=-Sends r vals num_cols max_args y builder fmtr rows _ _ 0
            (b.num_full_batches * b.rows_per_batch) (length rows) (full_batches-Sends c query b h)
            λ _. elim (Bool-cases (b.num_remainder_rows == 0)) [
              | inl none_left ↦ rw none_left (
                  ends (b.num_full_batches * b.rows_per_batch) (all_sent _ _ _ none_left total)
                    (nothing-Sends r vals num_cols max_args y builder fmtr rows _))
              | inr some_left ↦ rw some_left (
                  ends (b.num_full_batches * b.rows_per_batch) total
                    (remainder-Sends b c h less (some_rows _ some_left)))
            ]

    pub insert_single_batch-Sends :
        (c : ℕ)
        → 1 ≤ length rows
        → length rows * num_cols ≤ max_args
        → Sent
            (insert_single_batch (receiver max_args) r builder fmtr table columns rows c)
            0
            (length rows)
    unfolding insert_single_batch
    insert_single_batch-Sends c p h =
        insert_query-Sends (length rows) 0 (length rows) _ p
          λ query. first-Sends c query (length rows) h
