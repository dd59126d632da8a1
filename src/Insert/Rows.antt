-- ===== src/Insert/Rows.antt =====
-- The values of rows, and parts of lists of rows.
use go_sqldb.Prelude.{
  ℕ, zero, suc, ◌+◌, ◌*◌, ◌≤◌, ◌≡◌, refl, sym, ◌∙◌, ap, arith, List, [], ◌∷◌, ◌++◌, length, take,
  drop, ok, append_assoc, append-nil, length-append,
}
use go_sqldb.Value.{Value}
use go_sqldb.Insert.{StructReflector, row_values, collect_values}

abbrev pub all_values : {R : Type 0} → (R → List Value) → List R → List Value
all_values vals [] = []
all_values vals (row ∷ rows) = vals row ++ all_values vals rows

-- Each row is reflected without an error, as `num_cols` values.
pub record Yields {R I : Type 0} (r : StructReflector R I) (vals : R → List Value) (num_cols : ℕ)
    : Type 0 where
  pub reflects : (row : R) → row_values r row ≡ ok (vals row)
  pub has_columns : (row : R) → length (vals row) ≡ num_cols

module _ {R I : Type 0} {r : StructReflector R I} {vals : R → List Value} {num_cols : ℕ}
    (y : Yields r vals num_cols) where
  pub collect_values-all_values :
      (rows : List R) (acc : List Value)
      → collect_values r rows acc ≡ ok (acc ++ all_values vals rows)
  unfolding collect_values
  collect_values-all_values [] acc = ap (λ (l : List Value). ok l) (sym (append-nil acc))
  collect_values-all_values (row ∷ rows) acc = rw (y.reflects row) (
      collect_values-all_values rows (acc ++ vals row)
      ∙ ap (λ (l : List Value). ok l) (append_assoc acc (vals row) _))

  pub length-all_values : (rows : List R) → length (all_values vals rows) ≡ length rows * num_cols
  length-all_values [] = omega arith
  length-all_values (row ∷ rows) =
      rw
        (length-append (vals row) (all_values vals rows), y.has_columns row, length-all_values rows)
        (omega arith)

pub length-take_le : {R : Type 0} (k : ℕ) (rows : List R) → length (take k rows) ≤ k
length-take_le zero rows = omega arith
length-take_le (suc k) [] = omega arith
length-take_le (suc k) (x ∷ xs) = omega (arith, length-take_le k xs)

pub take-drop_append :
    {R : Type 0} (vals : R → List Value) (k : ℕ) (rows : List R)
    → all_values vals (take k rows) ++ all_values vals (drop k rows) ≡ all_values vals rows
take-drop_append vals zero rows = refl
take-drop_append vals (suc k) [] = refl
take-drop_append vals (suc k) (x ∷ xs) =
    append_assoc (vals x) _ _ ∙ ap (λ (l : List Value). vals x ++ l) (take-drop_append vals k xs)

suc-add : (a k : ℕ) → suc (a + k) ≡ suc a + k
suc-add a k = omega arith

add-zero : (k : ℕ) → k ≡ zero + k
add-zero k = omega arith

pub drop-nil : {R : Type 0} (k : ℕ) → drop {A = R} k [] ≡ []
drop-nil zero = refl
drop-nil (suc k) = refl

pub drop-drop : {R : Type 0} (a k : ℕ) (rows : List R) → drop k (drop a rows) ≡ drop (a + k) rows
drop-drop zero k rows = ap (λ (n : ℕ). drop n rows) (add-zero k)
drop-drop (suc a) k [] = drop-nil k ∙ sym (drop-nil (suc a + k))
drop-drop (suc a) k (x ∷ xs) = drop-drop a k xs ∙ ap (λ (n : ℕ). drop n (x ∷ xs)) (suc-add a k)

pub drop-all : {R : Type 0} (n : ℕ) (rows : List R) → length rows ≤ n → drop n rows ≡ []
drop-all n [] h = drop-nil n
drop-all zero (x ∷ xs) h = absurd (omega arith)
drop-all (suc n) (x ∷ xs) h = drop-all n xs (omega arith)

pub first_batch : (batch k : ℕ) → batch * k ≡ (batch + zero) * k
first_batch batch k = omega arith

pub next_batch : (batch k : ℕ) → (batch + 1) * k ≡ batch * k + k
next_batch batch k = omega arith

pub last_batch : (batch n k : ℕ) → (batch + 1 + n) * k ≡ (batch + suc n) * k
last_batch batch n k = omega arith
