-- ===== src/Update/Reorder.antt =====
-- `reorderForUpdate` and the placeholders of `UpdateColumns`.
use go_sqldb.Prelude.{
  sym, ◌≡◌, refl, ap, Bool, Bool-cases, inl, inr, not, List, [], ◌∷◌, ◌++◌, map, keep, Result, ok,
  err, ◌>>=◌,
}
use go_sqldb.Builder.{ColumnInfo}
use go_sqldb.Update.{entries_of, reorder_for_update}

entries_of-keep :
    {T : Type 0} (used : ColumnInfo → Bool) (val : ColumnInfo → T) (columns : List ColumnInfo)
    → entries_of used columns (map val columns) ≡ ok (map val (keep used columns))
unfolding entries_of
entries_of-keep used val [] = refl
entries_of-keep used val (col ∷ columns) = elim (Bool-cases (used col)) [
  | inl taken ↦ simp (taken, keep, entries_of-keep used val columns)
  | inr other ↦ simp (other, keep, entries_of-keep used val columns)
]

-- The columns in the order in which `UpdateColumns` numbers their placeholders.
abbrev pub arranged : List ColumnInfo → List ColumnInfo
arranged columns =
    keep (λ col. not col.primary_key) columns ++ keep (λ col. col.primary_key) columns

pub map-append :
    {A B : Type 0} (f : A → B) (xs ys : List A) → map f (xs ++ ys) ≡ map f xs ++ map f ys
map-append f [] ys = refl
map-append f (x ∷ xs) ys = ap (λ l. f x ∷ l) (map-append f xs ys)

-- For any value of each column: with the values of the columns in their order, reorderForUpdate
-- gives the values of the columns that are no keys and then those of the keys, the order in which
-- UpdateColumns numbers the placeholders of the same columns, and does not run out of range.
pub reorder_for_update-arranged :
    {T : Type 0} (val : ColumnInfo → T) (columns : List ColumnInfo)
    → reorder_for_update columns (map val columns) ≡ ok (map val (arranged columns))
unfolding reorder_for_update
reorder_for_update-arranged val columns =
    rw
      (
        entries_of-keep (λ col. not col.primary_key) val columns,
        entries_of-keep (λ col. col.primary_key) val columns,
      )
      (ap (λ l. ok l) (sym (map-append val _ _)))

abbrev pub map_entries : {A B : Type 0} → (A → B) → Result (List A) → Result (List B)
map_entries g (ok xs) = ok (map g xs)
map_entries g (err e) = err e

map_entries->>= :
    {A B : Type 0} (g : A → B) (x : A) (r : Result (List A))
    → (map_entries g r >>= λ more. ok (g x ∷ more)) ≡ map_entries g (r >>= λ more. ok (x ∷ more))
map_entries->>= g x (ok xs) = refl
map_entries->>= g x (err e) = refl

pub entries_of-map :
    {A B : Type 0} (g : A → B) (used : ColumnInfo → Bool) (columns : List ColumnInfo) (xs : List A)
    → entries_of used columns (map g xs) ≡ map_entries g (entries_of used columns xs)
unfolding entries_of
entries_of-map g used [] xs = refl
entries_of-map g used (col ∷ columns) [] = elim (Bool-cases (used col)) [
  | inl taken ↦ simp taken
  | inr other ↦ simp (other, entries_of-map g used columns [])
]
entries_of-map g used (col ∷ columns) (x ∷ xs) = elim (Bool-cases (used col)) [
  | inl taken ↦
      simp (taken, entries_of-map g used columns xs)
        (map_entries->>= g x (entries_of used columns xs))
  | inr other ↦ simp (other, entries_of-map g used columns xs)
]
