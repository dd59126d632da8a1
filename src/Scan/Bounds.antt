-- ===== src/Scan/Bounds.antt =====
-- Integers that `ScanDriverValue` of scan.go stores: no bit is lost.
use native.Mathlib.Nat.{mod-eq_of_lt, two-pow-succ}
use go_sqldb.Prelude.{
  ℕ, suc, ◌+◌, ◌-◌, ◌%◌, ◌^◌, ◌<◌, ltb, true, false, Bool-cases, ◌≡◌, ◌⊎◌, refl, ap, ◌∙◌, inl, inr,
  arith,
}
use go_sqldb.Query.{ℤ}
use go_sqldb.Query.ℤ.{pos, negsuc}
use go_sqldb.Scan.{
  int64, int_dest, stored, stored_int, scan_error, overflows, scan_driver_value, wrap_int,
  overflow_int, sign_extended, sign_extended_negative, int_eq,
}

-- The numbers of an integer of `bits + 1` bits with a sign.
abbrev pub Fits : ℕ → ℤ → Type 0
Fits bits (pos n) = n < 2 ^ bits
Fits bits (negsuc n) = n < 2 ^ bits

-- The low bits of a number below `half` give it back, and those of any other do not.
module _ (half n : ℕ) where
  low_bits :
      n < half
      → (sign_extended half (half + half) (n % (half + half)) ≡ pos n)
        × (sign_extended_negative half (half + half) (n % (half + half)) ≡ negsuc n)
  low_bits h =
      let m : n % (half + half) ≡ n = mod-eq_of_lt (omega (arith, h)) in
      let b : ltb n half ≡ true = ground arith in (rw (m, b) refl, rw (m, b) refl)

  lost_bits :
      ltb n half ≡ false
      → (int_eq (pos n) (sign_extended half (half + half) (n % (half + half))) ≡ false)
        × (int_eq (negsuc n) (sign_extended_negative half (half + half) (n % (half + half)))
            ≡ false)
  lost_bits h = elim (Bool-cases (ltb (n % (half + half)) half)) [
    | inl b ↦ (rw b (ground arith), rw b (ground arith))
    | inr b ↦ (rw b refl, rw b refl)
  ]

-- The cases of `wrap_int` with the power of the number of bits written out.
wrap_int-suc :
    (bits n : ℕ)
    → (wrap_int (suc bits) (pos n)
        ≡ sign_extended (2 ^ bits) (2 ^ bits + 2 ^ bits) (n % (2 ^ bits + 2 ^ bits)))
      × (wrap_int (suc bits) (negsuc n)
          ≡ sign_extended_negative (2 ^ bits) (2 ^ bits + 2 ^ bits) (n % (2 ^ bits + 2 ^ bits)))
unfolding wrap_int
wrap_int-suc bits n =
    let d : suc bits - 1 ≡ bits = omega arith in
    (rw (wrap_int, d, two-pow-succ bits) refl, rw (wrap_int, d, two-pow-succ bits) refl)

pub wrap_int-Fits : (bits : ℕ) (n : ℤ) → Fits bits n → wrap_int (suc bits) n ≡ n
wrap_int-Fits bits (pos n) l = (wrap_int-suc bits n).0 ∙ (low_bits (2 ^ bits) n l).0
wrap_int-Fits bits (negsuc n) l = (wrap_int-suc bits n).1 ∙ (low_bits (2 ^ bits) n l).1

int_eq_refl : (n : ℤ) → int_eq n n ≡ true
int_eq_refl (pos n) = ground arith
int_eq_refl (negsuc n) = ground arith

scan_int64-kept :
    (bits : ℕ) (n : ℤ)
    → wrap_int (suc bits) n ≡ n
    → scan_driver_value (int_dest (suc bits)) (int64 n) ≡ stored (stored_int n)
unfolding scan_driver_value overflow_int
scan_int64-kept bits n w = rw (scan_driver_value, overflow_int, w, int_eq_refl n) refl

scan_int64-lost :
    (bits : ℕ) (n : ℤ)
    → int_eq n (wrap_int (suc bits) n) ≡ false
    → scan_driver_value (int_dest (suc bits)) (int64 n) ≡ scan_error overflows
unfolding scan_driver_value overflow_int
scan_int64-lost bits n w = rw (scan_driver_value, overflow_int, w) refl

-- `ScanDriverValue` of an `int64` into a signed integer of any number of bits stores the number
-- itself when it is in the range of the type, so that no bit is lost by `SetInt`, and returns the
-- error of an overflow when it is not.
pub scan_int64-Fits :
    (bits : ℕ) (n : ℤ)
    → (Fits bits n × (scan_driver_value (int_dest (suc bits)) (int64 n) ≡ stored (stored_int n)))
      ⊎ ((¬ Fits bits n)
          × (scan_driver_value (int_dest (suc bits)) (int64 n) ≡ scan_error overflows))
scan_int64-Fits bits (pos n) = elim (Bool-cases (ltb n (2 ^ bits))) [
  | inl h ↦
      let l : n < 2 ^ bits = ground arith in
      inl (l, scan_int64-kept bits (pos n) (wrap_int-Fits bits (pos n) l))
  | inr h ↦ inr (
    (λ l. ground arith),
    scan_int64-lost bits (pos n)
        (ap (int_eq (pos n)) (wrap_int-suc bits n).0 ∙ (lost_bits (2 ^ bits) n h).0),
  )
]
scan_int64-Fits bits (negsuc n) = elim (Bool-cases (ltb n (2 ^ bits))) [
  | inl h ↦
      let l : n < 2 ^ bits = ground arith in
      inl (l, scan_int64-kept bits (negsuc n) (wrap_int-Fits bits (negsuc n) l))
  | inr h ↦ inr (
    (λ l. ground arith),
    scan_int64-lost bits (negsuc n)
        (ap (int_eq (negsuc n)) (wrap_int-suc bits n).1 ∙ (lost_bits (2 ^ bits) n h).1),
  )
]
