-- ===== src/Builder/Loops.antt =====
-- The loops of the query builders over columns. Each writes a separator before every item but the
-- first, which it knows by `i > 0` or by a flag `first`, and ends early at an error.
use go_sqldb.Prelude.{
  ℕ, suc, ◌+◌, ◌≡◌, Bool, true, false, List, [], ◌∷◌, ◌++◌, append_assoc, append-nil, arith, Bytes,
  ltb, if◌then◌else◌, join, separated, Result, ok, ◌>>=◌, >>=-assoc, Bool-cases, inl, inr, length,
}
use native.Mathlib.Numerals.{add-one}
use native.Mathlib.Nat.{add-zero}

module _ {ℓ} {A : Type ℓ} where
  -- `for i := range columns`, from the index `i`.
  unfoldable pub write_each : Bytes → (ℕ → A → Result Bytes) → ℕ → List A → Bytes → Result Bytes
  write_each sep item i [] q = ok q
  write_each sep item i (c ∷ cs) q = do
    text ← item i c
    write_each sep item (i + 1) cs ((if ltb 0 i then q ++ sep else q) ++ text)

  -- The loop that skips some columns, with the flag `first`; `item` gets the index of the column
  -- and the number of the items before it.
  unfoldable pub write_some :
      Bytes
      → (A → Bool)
      → (ℕ → ℕ → A → Result Bytes)
      → ℕ
      → ℕ
      → Bool
      → List A
      → Bytes
      → Result (Bytes × ℕ)
  write_some sep used item i k first [] q = ok (q, k)
  write_some sep used item i k first (c ∷ cs) q = elim (used c) [
    | true ↦ item i k c >>= λ text.
        write_some sep used item (i + 1) (k + 1) false cs ((if first then q else q ++ sep) ++ text)
    | false ↦ write_some sep used item (i + 1) k first cs q
  ]

  -- The texts of all items, or the first error.
  unfoldable pub traverse : (ℕ → A → Result Bytes) → ℕ → List A → Result (List Bytes)
  traverse item i [] = ok []
  traverse item i (c ∷ cs) = do text ← item i c; texts ← traverse item (i + 1) cs; ok (text ∷ texts)

  -- The columns that a loop does not skip, with their indices.
  unfoldable pub numbered : (A → Bool) → ℕ → List A → List (ℕ × A)
  numbered used i [] = []
  numbered used i (c ∷ cs) = elim (used c) [
    | true ↦ (i, c) ∷ numbered used (i + 1) cs
    | false ↦ numbered used (i + 1) cs
  ]

ltb-zero-suc : (i : ℕ) → ltb 0 (suc i) ≡ true
ltb-zero-suc i = ground arith

count_one : (k n : ℕ) → k + 1 + n ≡ k + suc n
count_one k n = omega arith

ruleset loop_laws = (>>=-assoc, append_assoc)

module _ {ℓ} {A : Type ℓ} (sep : Bytes) where
  -- From a later index on, each item stands behind a separator.
  write_each-later :
      (item : ℕ → A → Result Bytes) (i : ℕ) (cs : List A) (q : Bytes)
      → write_each sep item (suc i) cs q
        ≡ (traverse item (suc i) cs >>= λ texts. ok (q ++ separated sep texts))
  unfolding write_each traverse
  write_each-later item i [] q = rw append-nil
  write_each-later item i (c ∷ cs) q =
      simp (loop_laws, add-one, ltb-zero-suc, write_each-later item (suc i) cs)

  -- The loop writes the texts of the items with the separator between them.
  pub write_each-join :
      (item : ℕ → A → Result Bytes) (cs : List A) (q : Bytes)
      → write_each sep item 0 cs q ≡ (traverse item 0 cs >>= λ texts. ok (q ++ join sep texts))
  unfolding write_each traverse
  write_each-join item [] q = rw append-nil
  write_each-join item (c ∷ cs) q = simp (loop_laws, write_each-later item 0 cs)

  write_some-later :
      (used : A → Bool) (item : ℕ → ℕ → A → Result Bytes) (i k : ℕ) (cs : List A) (q : Bytes)
      → write_some sep used item i k false cs q ≡ (
          traverse (λ k c. item c.0 k c.1) k (numbered used i cs) >>= λ texts.
          ok (q ++ separated sep texts, k + length texts))
  unfolding write_some traverse numbered
  write_some-later used item i k [] q = simp (append-nil, add-zero)
  write_some-later used item i k (c ∷ cs) q = elim (Bool-cases (used c)) [
    | inl u ↦
        rw (u, write_some, numbered)
          (simp (loop_laws, count_one, write_some-later used item (i + 1) (k + 1) cs))
    | inr u ↦ rw (u, write_some, numbered) (write_some-later used item (i + 1) k cs q)
  ]

  -- The loop that skips columns writes the texts of the others, with the separator between them,
  -- and counts them on from `k`.
  pub write_some-join :
      (used : A → Bool) (item : ℕ → ℕ → A → Result Bytes) (i k : ℕ) (cs : List A) (q : Bytes)
      → write_some sep used item i k true cs q ≡ (
          traverse (λ k c. item c.0 k c.1) k (numbered used i cs) >>= λ texts.
          ok (q ++ join sep texts, k + length texts))
  unfolding write_some traverse numbered
  write_some-join used item i k [] q = simp (append-nil, add-zero)
  write_some-join used item i k (c ∷ cs) q = elim (Bool-cases (used c)) [
    | inl u ↦
        rw (u, write_some, numbered)
          (simp (loop_laws, count_one, write_some-later used item (i + 1) (k + 1) cs))
    | inr u ↦ rw (u, write_some, numbered) (write_some-join used item (i + 1) k cs q)
  ]
