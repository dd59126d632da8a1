-- ===== src/Formatter/Placeholder.antt =====
-- `strconv.Itoa` on the natural numbers, which numbers the placeholders.
use go_sqldb.Prelude.{
  ℕ, zero, suc, ◌+◌, ◌-◌, ◌*◌, ◌/◌, ◌%◌, ◌<◌, ◌≡◌, sym, ap, ◌∙◌, [], ◌∷◌, arith, Bytes, ltb,
  if◌then◌else◌, Bool-cases, inl, inr, All, ◌≤◌, refl,
}
use mathlib.Core.List.{foldl}

-- The digits of `n` in front of `out`; `n + 1` rounds are enough (itoa-injective rests on it).
digits : ℕ → ℕ → Bytes → Bytes
digits zero n out = out
digits (suc fuel) n out =
    let more = digits fuel (n / 10) ((b'0' + n % 10) ∷ out) in
    if ltb n 10 then (b'0' + n) ∷ out else more

unfoldable pub itoa : ℕ → Bytes
unfolding digits
itoa n = digits (n + 1) n []

-- The number that digits spell behind `n`.
abbrev pub value : ℕ → Bytes → ℕ
value = foldl (λ n c. n * 10 + (c - b'0'))

value-digits : (fuel n : ℕ) (out : Bytes) → n < fuel → value 0 (digits fuel n out) ≡ value n out
unfolding digits
value-digits zero n out h = absurd (omega arith)
value-digits (suc fuel) n out h = elim (Bool-cases (ltb n 10)) [
  | inl few ↦ rw few (ap (λ (k : ℕ). value k out) (omega arith))
  | inr many ↦ rw many (
      rw (value-digits fuel (n / 10) ((b'0' + n % 10) ∷ out) (ground arith))
        (ap (λ (k : ℕ). value k out) (omega arith)))
]

pub value-itoa : (n : ℕ) → value 0 (itoa n) ≡ n
unfolding itoa
value-itoa n = value-digits (n + 1) n [] (omega arith)

pub itoa-injective : (m n : ℕ) → itoa m ≡ itoa n → m ≡ n
itoa-injective m n e = cc (value-itoa m, value-itoa n, ap (value 0) e)

-- A byte of "0123456789".
abbrev pub IsDigit : ℕ → Type 0
IsDigit c = (48 ≤ c) × (c ≤ 57)

digits-All :
    (fuel n : ℕ) (out : Bytes) → All IsDigit out → n < fuel → All IsDigit (digits fuel n out)
unfolding digits
digits-All zero n out h b = h
digits-All (suc fuel) n out h b = elim (Bool-cases (ltb n 10)) [
  | inl few ↦ rw few ((omega arith, ground arith), h)
  | inr many ↦ rw many (
      digits-All fuel (n / 10) ((b'0' + n % 10) ∷ out) ((omega arith, omega arith), h)
        (ground arith))
]

digits-cons :
    (fuel n c : ℕ) (out : Bytes) → (d : ℕ) × (s : Bytes) × (digits fuel n (c ∷ out) ≡ d ∷ s)
unfolding digits
digits-cons zero n c out = (c, out, refl)
digits-cons (suc fuel) n c out = elim (Bool-cases (ltb n 10)) [
  | inl few ↦ (b'0' + n, c ∷ out, rw few refl)
  | inr many ↦
      let (d, s, e) = digits-cons fuel (n / 10) (b'0' + n % 10) (c ∷ out) in (d, s, rw many e)
]

All-path : (s t : Bytes) → s ≡ t → All IsDigit s → All IsDigit t
All-path s t e h = rw (sym e) h

digits-IsDigit :
    (n : ℕ) → (d : ℕ) × (s : Bytes) × (digits (suc n) n [] ≡ d ∷ s) × All IsDigit (d ∷ s)
unfolding digits
digits-IsDigit n = elim (Bool-cases (ltb n 10)) [
  | inl few ↦ (b'0' + n, [], rw few refl, ((omega arith, ground arith), tt))
  | inr many ↦
      let (d, s, e) = digits-cons n (n / 10) (b'0' + n % 10) [] in
      let a : All IsDigit (digits n (n / 10) ((b'0' + n % 10) ∷ [])) =
        digits-All n (n / 10) _ ((omega arith, omega arith), tt) (ground arith) in
      (d, s, rw many e, All-path _ _ e a)
]

-- The text is not empty and has digits only.
pub itoa-IsDigit : (n : ℕ) → (d : ℕ) × (s : Bytes) × (itoa n ≡ d ∷ s) × All IsDigit (d ∷ s)
unfolding itoa
itoa-IsDigit n =
    let f : n + 1 ≡ suc n = omega arith in
    let (d, s, e, h) = digits-IsDigit n in (d, s, ap (λ (k : ℕ). digits k n []) f ∙ e, h)
