-- ===== src/Builder/Upsert.antt =====
-- What the upsert builders of the drivers share.
use mathlib.Core.List.{map-id}
use go_sqldb.Prelude.{
  ℕ, ◌+◌, ◌≡◌, refl, ap, Bool, true, false, not, Bool-cases, inl, inr, List, [], ◌∷◌, map, Bytes,
  Result, ok, err, ◌>>=◌, ◌∙◌,
}
use go_sqldb.Formatter.{QueryFormatter}
use go_sqldb.Builder.{ColumnInfo}
use go_sqldb.Builder.Loops.{traverse, numbered}
use go_sqldb.Builder.Statement.{Binding, format_names, bind_from}

-- `%s`, for a loop that writes the key columns only.
abbrev pub is_key : ColumnInfo → Bool
is_key c = c.primary_key

abbrev pub is_not_key : ColumnInfo → Bool
is_not_key c = not c.primary_key

-- The items that stand beside the columns which a loop does not skip.
abbrev pub pick {ℓ} : {X : Type ℓ} → (ColumnInfo → Bool) → List ColumnInfo → List X → List X
pick used [] xs = []
pick used (c ∷ cs) [] = []
pick used (c ∷ cs) (x ∷ xs) = elim (used c) [ true ↦ x ∷ pick used cs xs | false ↦ pick used cs xs ]

-- A list of names whose first cannot be formatted has no formatted form.
pub format_names-ok :
    (f : QueryFormatter) (name : Bytes) (names ns : List Bytes)
    → format_names f (name ∷ names) ≡ ok ns
    → (n : Bytes) × (rest : List Bytes) × (f.format_column_name name ≡ ok n)
      × (format_names f names ≡ ok rest)
      × (ns ≡ n ∷ rest)
format_names-ok f name names ns h = first_name (f.format_column_name name) refl h
  where
    second_name :
        (n : Bytes) (r : Result (List Bytes))
        → f.format_column_name name ≡ ok n
        → format_names f names ≡ r
        → (r >>= λ rest. ok (n ∷ rest)) ≡ ok ns
        → (n : Bytes) × (rest : List Bytes) × (f.format_column_name name ≡ ok n)
          × (format_names f names ≡ ok rest)
          × (ns ≡ n ∷ rest)
    second_name n (ok rest) e e' k = (n, rest, e, e', cc)
    second_name n (err x) e e' k = cc

    first_name :
        (r : Result Bytes)
        → f.format_column_name name ≡ r
        → (r >>= λ n. format_names f names >>= λ rest. ok (n ∷ rest)) ≡ ok ns
        → (n : Bytes) × (rest : List Bytes) × (f.format_column_name name ≡ ok n)
          × (format_names f names ≡ ok rest)
          × (ns ≡ n ∷ rest)
    first_name (ok n) e k = second_name n (format_names f names) e refl k
    first_name (err x) e k = cc

module _ (f : QueryFormatter) (used : ColumnInfo → Bool) (write : Binding → Bytes) where
  -- Where all names can be formatted, so can those of the columns that are not skipped, and each
  -- stands beside the placeholder of its column.
  pub traverse-pick :
      (k i : ℕ) (cs : List ColumnInfo) (ns : List Bytes)
      → format_names f (map (λ c. c.name) cs) ≡ ok ns
      → traverse
          (λ k (c : ℕ × ColumnInfo).
            f.format_column_name c.1.name >>= λ n. ok (write (n, f.format_placeholder c.0)))
          k
          (numbered used i cs)
        ≡ ok (map write (pick used cs (bind_from f i ns)))
  unfolding traverse numbered
  traverse-pick k i [] ns h = refl
  traverse-pick k i (c ∷ cs) ns h =
      let (n, rest, e, e', s) = format_names-ok f c.name (map (λ c. c.name) cs) ns h in
      elim (Bool-cases (used c)) [
        | inl u ↦ rw (s, u, numbered, pick) (simp (e, traverse-pick (k + 1) (i + 1) cs rest e'))
        | inr u ↦ rw (s, u, numbered, pick) (traverse-pick k (i + 1) cs rest e')
      ]

bind-ok {ℓ} : {A : Type ℓ} (m : Result A) → (m >>= λ a. ok a) ≡ m
bind-ok (ok a) = refl
bind-ok (err e) = refl

map-pick-bind_from {ℓ} :
    {B : Type ℓ} (f : QueryFormatter) (used : ColumnInfo → Bool) (write : Bytes → B) (i : ℕ)
    (cs : List ColumnInfo) (ns : List Bytes)
    → map (λ (b : Binding). write b.0) (pick used cs (bind_from f i ns))
      ≡ map write (pick used cs ns)
map-pick-bind_from f used write i [] ns = refl
map-pick-bind_from f used write i (c ∷ cs) [] = refl
map-pick-bind_from f used write i (c ∷ cs) (n ∷ ns) = elim (Bool-cases (used c)) [
  | inl u ↦ rw (u, pick) (simp (map-pick-bind_from f used write (i + 1) cs ns))
  | inr u ↦ rw (u, pick) (map-pick-bind_from f used write (i + 1) cs ns)
]

-- The same for items that hold no placeholder.
pub traverse-pick_names :
    (f : QueryFormatter) (used : ColumnInfo → Bool) (write : Bytes → Bytes) (k i : ℕ)
    (cs : List ColumnInfo) (ns : List Bytes)
    → format_names f (map (λ c. c.name) cs) ≡ ok ns
    → traverse
        (λ k (c : ℕ × ColumnInfo). f.format_column_name c.1.name >>= λ n. ok (write n))
        k
        (numbered used i cs)
      ≡ ok (map write (pick used cs ns))
traverse-pick_names f used write k i cs ns h =
    traverse-pick f used (λ b. write b.0) k i cs ns h
    ∙ ap ok (map-pick-bind_from f used write i cs ns)

pub traverse-pick_plain :
    (f : QueryFormatter) (used : ColumnInfo → Bool) (k i : ℕ) (cs : List ColumnInfo)
    (ns : List Bytes)
    → format_names f (map (λ c. c.name) cs) ≡ ok ns
    → traverse (λ k (c : ℕ × ColumnInfo). f.format_column_name c.1.name) k (numbered used i cs)
      ≡ ok (pick used cs ns)
traverse-pick_plain f used k i cs ns h =
    simp (bind-ok, map-id) at (traverse-pick_names f used (λ n. n) k i cs ns h)

-- Two programs that go on alike from every result of their common first part are the same.
pub bind_cong {ℓ κ} :
    {A : Type ℓ} {B : Type κ} (m : Result A) (g h : A → Result B)
    → ((a : A) → m ≡ ok a → g a ≡ h a)
    → (m >>= g) ≡ (m >>= h)
bind_cong (ok a) g h e = e a refl
bind_cong (err x) g h e = refl
