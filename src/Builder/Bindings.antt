-- ===== src/Builder/Bindings.antt =====
-- What `traverse` gives for the items that the builders write.
use Prim.Native.Nat.{ℕ, zero, suc}
use native.Mathlib.Nat.{add_assoc}
use go_sqldb.Prelude.{
  ◌+◌, ◌≡◌, refl, Bool, Bool-cases, inl, inr, List, [], ◌∷◌, map, Bytes, length, indices, keep,
  Result, ok, ◌>>=◌, >>=-assoc,
}
use go_sqldb.Formatter.{QueryFormatter}
use go_sqldb.Builder.Loops.{traverse, numbered}
use go_sqldb.Builder.Statement.{Binding, format_names, bind_from}

module _ {ℓ} {A : Type ℓ} where
  -- An item for each column that a loop does not skip, numbered without gaps.
  pub traverse-numbered :
      (used : A → Bool) (item : ℕ → A → Result Bytes) (k i : ℕ) (cs : List A)
      → traverse (λ k c. item k c.1) k (numbered used i cs) ≡ traverse item k (keep used cs)
  unfolding traverse numbered
  traverse-numbered used item k i [] = refl
  traverse-numbered used item k i (c ∷ cs) = elim (Bool-cases (used c)) [
    | inl u ↦ rw (u, numbered, keep) (simp (traverse-numbered used item (k + 1) (i + 1) cs))
    | inr u ↦ rw (u, numbered, keep) (traverse-numbered used item k (i + 1) cs)
  ]

  -- A shift of the index.
  pub traverse-offset :
      (item : ℕ → A → Result Bytes) (offset i : ℕ) (cs : List A)
      → traverse (λ i c. item (offset + i) c) i cs ≡ traverse item (offset + i) cs
  unfolding traverse
  traverse-offset item offset i [] = refl
  traverse-offset item offset i (c ∷ cs) =
      simp (traverse-offset item offset (i + 1) cs, ← add_assoc)

  pub traverse-ok :
      (text : ℕ → Bytes) (i : ℕ) (cs : List A)
      → traverse (λ i c. ok (text i)) i cs ≡ ok (map text (indices i (length cs)))
  unfolding traverse
  traverse-ok text i [] = refl
  traverse-ok text i (c ∷ cs) = simp (traverse-ok text (i + 1) cs)

  module _ (f : QueryFormatter) (name : A → Bytes) where
    -- A formatted name with a placeholder, for each column.
    pub traverse-bind :
        (write : Binding → Bytes) (i : ℕ) (cs : List A)
        → traverse
            (λ i c. f.format_column_name (name c) >>= λ n. ok (write (n, f.format_placeholder i)))
            i
            cs
          ≡ (format_names f (map name cs) >>= λ ns. ok (map write (bind_from f i ns)))
    unfolding traverse
    traverse-bind write i [] = refl
    traverse-bind write i (c ∷ cs) = simp (>>=-assoc, traverse-bind write (i + 1) cs)

    pub traverse-names :
        (i : ℕ) (cs : List A)
        → traverse (λ i c. f.format_column_name (name c)) i cs ≡ format_names f (map name cs)
    unfolding traverse
    traverse-names i [] = refl
    traverse-names i (c ∷ cs) = simp (traverse-names (i + 1) cs)

pub length-bind_from :
    (f : QueryFormatter) (i : ℕ) (ns : List Bytes) → length (bind_from f i ns) ≡ length ns
length-bind_from f i [] = refl
length-bind_from f i (n ∷ ns) = simp (length-bind_from f (i + 1) ns)

-- Items that cannot fail and do not look at the index.
pub traverse-map {ℓ} :
    {A : Type ℓ} (text : A → Bytes) (i : ℕ) (cs : List A)
    → traverse (λ i c. ok (text c)) i cs ≡ ok (map text cs)
unfolding traverse
traverse-map text i [] = refl
traverse-map text i (c ∷ cs) = simp (traverse-map text (i + 1) cs)

pub map-indices {ℓ} :
    {A : Type ℓ} (g : ℕ → A) (offset i n : ℕ)
    → map (λ x. g (offset + x)) (indices i n) ≡ map g (indices (offset + i) n)
map-indices g offset i zero = refl
map-indices g offset i (suc n) = simp (map-indices g offset (i + 1) n, ← add_assoc)

pub map-map_pointwise {ℓ κ} :
    {A : Type ℓ} {B : Type κ} {C : Type κ} (g : B → C) (h : A → B) (xs : List A)
    → map g (map h xs) ≡ map (λ x. g (h x)) xs
map-map_pointwise g h [] = refl
map-map_pointwise g h (x ∷ xs) = simp (map-map_pointwise g h xs)

-- Items that hold no placeholder.
pub map-bind_from {ℓ} :
    {B : Type ℓ} (f : QueryFormatter) (write : Bytes → B) (i : ℕ) (ns : List Bytes)
    → map (λ (b : Binding). write b.0) (bind_from f i ns) ≡ map write ns
map-bind_from f write i [] = refl
map-bind_from f write i (n ∷ ns) = simp (map-bind_from f write (i + 1) ns)
