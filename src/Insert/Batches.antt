-- ===== src/Insert/Batches.antt =====
-- The batches of `InsertRowStructs`: their sizes.
use Prim.Native.Nat.{ℕ, ◌+◌, ◌*◌, ◌/◌, ◌%◌, ◌≤◌, ◌<◌}
use go_sqldb.Prelude.{◌≡◌, arith, false, ltb, ◌==◌, if◌then◌else◌, ok}
use go_sqldb.Insert.{Batching, batching}
use native.Mathlib.Nat.{div-mul-le_self, le-div_iff_mul-le, mod-lt, div-add-mod'}

-- No batch has more than `max_args` arguments, and the batches have all the rows.
unfoldable pub IsPlan : ℕ → ℕ → ℕ → Batching → Type 0
IsPlan max_args num_cols num_total_rows b =
    (1 ≤ b.rows_per_batch)
    × (b.rows_per_batch * num_cols ≤ max_args)
    × (b.num_full_batches * b.rows_per_batch + b.num_remainder_rows ≡ num_total_rows)
    × (b.num_remainder_rows < b.rows_per_batch)

div-pos : (m n : ℕ) → 1 ≤ n → n ≤ m → 1 ≤ m / n
div-pos m n p q = (le-div_iff_mul-le p).1 (omega arith)

sized :
    (m n t k : ℕ)
    → 1 ≤ k
    → k * n ≤ m
    → IsPlan m n t
        (record { rows_per_batch = k; num_full_batches = t / k; num_remainder_rows = t % k })
unfolding IsPlan
sized m n t k p q = (p, q, div-add-mod' t k, mod-lt t p)

not-eq : (n : ℕ) → 1 ≤ n → (n == 0) ≡ false
not-eq n p = ground arith

not-less : (n : ℕ) → 1 ≤ n → ltb n 1 ≡ false
not-less n p = ground arith

size_pos : (t k : ℕ) → 1 ≤ t → 1 ≤ k → 1 ≤ (if ltb t k then t else k)
size_pos t k p q = ground arith

size-le : (t k : ℕ) → (if ltb t k then t else k) ≤ k
size-le t k = ground arith

pub fits : (k d n m : ℕ) → k ≤ d → d * n ≤ m → k * n ≤ m
fits k d n m p q = grind arith

batching-ok :
    (m n t : ℕ)
    → 1 ≤ n
    → n ≤ m
    → batching m n t ≡ (
        let k = if ltb t (m / n) then t else m / n in
        ok (record { rows_per_batch = k; num_full_batches = t / k; num_remainder_rows = t % k }))
unfolding batching
batching-ok m n t p q = simp (not-eq n p, not-less (m / n) (div-pos m n p q))

-- For at least one row of at least one column, and a driver that takes the arguments of one row,
-- the batches are found: each takes one row or more and no more arguments than the driver does,
-- the full ones and the remainder are all rows, and the remainder is less than a batch.
pub batching-IsPlan :
    (max_args num_cols num_total_rows : ℕ)
    → 1 ≤ num_cols
    → num_cols ≤ max_args
    → 1 ≤ num_total_rows
    → (b : Batching) × (batching max_args num_cols num_total_rows ≡ ok b)
      × IsPlan max_args num_cols num_total_rows b
batching-IsPlan m n t p q r = (
  _,
  batching-ok m n t p q,
  sized m n t _ (size_pos t (m / n) r (div-pos m n p q))
      (fits _ (m / n) n m (size-le t (m / n)) (div-mul-le_self m n)),
)
