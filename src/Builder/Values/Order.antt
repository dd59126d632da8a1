-- ===== src/Builder/Values/Order.antt =====
-- `Values.SortedColumnsAndValues` and the order in which the map is iterated.
use mathlib.Core.Path.{subst}
use mathlib.Core.List.{Permᴰ}
use go_sqldb.Prelude.{
  ◌≡◌, ◌≢◌, refl, sym, ◌∙◌, ap, arith, Bool-cases, inl, inr, true, false, List, [], ◌∷◌, map, Bytes,
  bytes_eq, bytes_eq_sound, All,
}
use go_sqldb.Value.{Value}
use go_sqldb.Builder.{ColumnInfo, Values}
use go_sqldb.Builder.Values.{
  less, insert_sorted, sort_columns, lookup, column_of, sorted_columns_and_values,
}

less_between : (e d c : Bytes) → less e d ≡ false → less e c ≡ true → less d c ≡ true
unfolding less
less_between [] [] c h k = k
less_between [] (y ∷ d) c h k = cc
less_between (x ∷ e) d [] h k = cc
less_between (x ∷ e) [] (z ∷ c) h k = refl
less_between (x ∷ e) (y ∷ d) (z ∷ c) h k = ground (arith, less_between e d c)

less_total : (a b : Bytes) → less a b ≡ false → less b a ≡ false → a ≡ b
unfolding less
less_total [] [] h k = refl
less_total [] (y ∷ b) h k = cc
less_total (x ∷ a) [] h k = cc
less_total (x ∷ a) (y ∷ b) h k = ground (arith, less_total a b)

less_asym : (a b : Bytes) → less a b ≡ true → less b a ≡ false
unfolding less
less_asym [] [] h = cc
less_asym [] (y ∷ b) h = refl
less_asym (x ∷ a) [] h = cc
less_asym (x ∷ a) (y ∷ b) h = ground (arith, less_asym a b)

same_insert :
    (c d : ColumnInfo) (l : List ColumnInfo)
    → c ≡ d
    → insert_sorted c (insert_sorted d l) ≡ insert_sorted d (insert_sorted c l)
same_insert c d l h = rw h refl

-- Columns that are the same if their names are.
insert_sorted_comm :
    (c d : ColumnInfo)
    → (c.name ≡ d.name → c ≡ d)
    → (l : List ColumnInfo)
    → insert_sorted c (insert_sorted d l) ≡ insert_sorted d (insert_sorted c l)
unfolding insert_sorted
insert_sorted_comm c d same [] = elim (Bool-cases (less c.name d.name)) [
  | inl lt ↦ rw (lt, less_asym c.name d.name lt) refl
  | inr ge ↦ elim (Bool-cases (less d.name c.name)) [
    | inl gt ↦ rw (ge, gt) refl
    | inr le ↦ same_insert c d [] (same (less_total c.name d.name ge le))
  ]
]
insert_sorted_comm c d same (e ∷ l) = elim (Bool-cases (less e.name c.name)) [
  | inl before_c ↦ elim (Bool-cases (less e.name d.name)) [
    | inl before_d ↦ simp (before_c, before_d, insert_sorted_comm c d same l)
    | inr behind_d ↦ simp (before_c, behind_d, less_between e.name d.name c.name behind_d before_c)
  ]
  | inr behind_c ↦ elim (Bool-cases (less e.name d.name)) [
    | inl before_d ↦ simp (behind_c, before_d, less_between e.name c.name d.name behind_c before_d)
    | inr behind_d ↦ elim (Bool-cases (less c.name d.name)) [
      | inl lt ↦ simp (behind_c, behind_d, lt, less_asym c.name d.name lt)
      | inr ge ↦ elim (Bool-cases (less d.name c.name)) [
        | inl gt ↦ simp (behind_c, behind_d, ge, gt)
        | inr le ↦ same_insert c d (e ∷ l) (same (less_total c.name d.name ge le))
      ]
    ]
  ]
]

same_column :
    (p q : Bytes × Value) → (column_of p).name ≡ (column_of q).name → column_of p ≡ column_of q
same_column p q h = ap (λ (n : Bytes). column_of (n, Value.nil)) h

sort_columns-Permᴰ :
    {v v' : Values} → Permᴰ v v' → sort_columns (map column_of v) ≡ sort_columns (map column_of v')
unfolding sort_columns
sort_columns-Permᴰ Permᴰ.nil = refl
sort_columns-Permᴰ (Permᴰ.cons e p) = rw (e, sort_columns-Permᴰ p) refl
sort_columns-Permᴰ (Permᴰ.swap {a = a} {b = b} {l = l} e e') =
    rw (sym e, sym e')
      (insert_sorted_comm (column_of a) (column_of b) (same_column a b)
        (sort_columns (map column_of l)))
sort_columns-Permᴰ (Permᴰ.trans p q) = sort_columns-Permᴰ p ∙ sort_columns-Permᴰ q

-- The keys of a map differ.
abbrev pub Apart : Bytes × Value → Values → Type 0
Apart p v = All (λ (q : Bytes × Value). p.0 ≢ q.0) v

abbrev pub Distinct : Values → Type 0
Distinct [] = Unit {0}
Distinct (p ∷ v) = Apart p v × Distinct v

Apart-Permᴰ : (x : Bytes × Value) {v v' : Values} → Permᴰ v v' → Apart x v → Apart x v'
Apart-Permᴰ x Permᴰ.nil h = h
Apart-Permᴰ x (Permᴰ.cons e p) (y, h) = (rw (sym e) y, Apart-Permᴰ x p h)
Apart-Permᴰ x (Permᴰ.swap e e') (y, (z, h)) = (rw (sym e') z, (rw (sym e) y, h))
Apart-Permᴰ x (Permᴰ.trans p q) h = Apart-Permᴰ x q (Apart-Permᴰ x p h)

Distinct-Permᴰ : {v v' : Values} → Permᴰ v v' → Distinct v → Distinct v'
Distinct-Permᴰ Permᴰ.nil h = h
Distinct-Permᴰ (Permᴰ.cons {a = a} {b = b} {l₂ = l₂} e p) (differ, h) =
    (subst (λ (x : Bytes × Value). Apart x l₂) e (Apart-Permᴰ a p differ), Distinct-Permᴰ p h)
Distinct-Permᴰ (Permᴰ.swap {l = l} e e') ((ab, al), (bl, h)) =
    let key = λ (x : Bytes × Value). x.0 in
    let apart = λ (x : Bytes × Value). Apart x l in
    (
      ((λ same. ab (ap key e ∙ sym same ∙ ap key (sym e'))), subst apart e' bl),
      (subst apart e al, h),
    )
Distinct-Permᴰ (Permᴰ.trans p q) h = Distinct-Permᴰ q (Distinct-Permᴰ p h)

lookup_swap :
    (a b : Bytes × Value) (l : Values)
    → a.0 ≢ b.0
    → (name : Bytes) → lookup (a ∷ b ∷ l) name ≡ lookup (b ∷ a ∷ l) name
unfolding lookup
lookup_swap (k, x) (m, y) l differ name = elim (Bool-cases (bytes_eq k name)) [
  | inl hit ↦ elim (Bool-cases (bytes_eq m name)) [
    | inl also ↦ absurd (differ (bytes_eq_sound k name hit ∙ sym (bytes_eq_sound m name also)))
    | inr miss ↦ rw (hit, miss) refl
  ]
  | inr miss ↦ rw miss refl
]

lookup-Permᴰ :
    {v v' : Values} → Permᴰ v v' → Distinct v → (name : Bytes) → lookup v name ≡ lookup v' name
unfolding lookup
lookup-Permᴰ Permᴰ.nil h name = refl
lookup-Permᴰ (Permᴰ.cons e p) (differ, h) name = rw (e, lookup-Permᴰ p h name) refl
lookup-Permᴰ (Permᴰ.swap {a = a} {b = b} {l = l} e e') ((ab, _), _) name =
    rw (sym e, sym e') (lookup_swap a b l ab name)
lookup-Permᴰ (Permᴰ.trans p q) h name =
    lookup-Permᴰ p h name ∙ lookup-Permᴰ q (Distinct-Permᴰ p h) name

lookup_each :
    (v v' : Values)
    → ((name : Bytes) → lookup v name ≡ lookup v' name)
    → (cs : List ColumnInfo) → map (λ c. lookup v c.name) cs ≡ map (λ c. lookup v' c.name) cs
lookup_each v v' h [] = refl
lookup_each v v' h (c ∷ cs) = rw (h c.name, lookup_each v v' h cs) refl

-- Two iterations of a map, which has no key twice, give the same columns and the same values,
-- in the same order.
pub sorted_columns_and_values-Permᴰ :
    {v v' : Values}
    → Permᴰ v v'
    → Distinct v
    → sorted_columns_and_values v ≡ sorted_columns_and_values v'
unfolding sorted_columns_and_values
sorted_columns_and_values-Permᴰ {v} {v'} p h = rw (sort_columns-Permᴰ p) (
    ap (λ (l : List Value). (sort_columns (map column_of v'), l))
      (lookup_each v v' (lookup-Permᴰ p h) (sort_columns (map column_of v'))))
