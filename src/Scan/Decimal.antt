-- ===== src/Scan/Decimal.antt =====
-- Integers that `ScanDriverValue` of scan.go writes into a text and reads from it.
use native.Mathlib.Nat.{two-pow-succ}
use go_sqldb.Prelude.{
  ℕ, suc, ◌+◌, ◌-◌, ◌*◌, ◌^◌, ◌<◌, ltb, leb, ◌==◌, Bool, true, false, ◌&&◌, [], ◌∷◌, some, Bytes,
  All, ◌≡◌, refl, ap, sym, ◌∙◌, arith,
}
use go_sqldb.Formatter.Placeholder.{itoa, value, value-itoa, IsDigit, itoa-IsDigit}
use go_sqldb.Query.{ℤ}
use go_sqldb.Query.ℤ.{pos, negsuc}
use go_sqldb.Scan.{
  parsed, Scan, int64, string_value, bytes_value, int_dest, string_dest, stored, stored_int,
  stored_string, scan_driver_value, scan_string_into, wrap_int, digits, some_digits, parse_uint,
  parse_int, signed, negated, parse_signed, format_int,
}
use go_sqldb.Scan.Bounds.{Fits, wrap_int-Fits}

digits-value : (n : ℕ) (s : Bytes) → All IsDigit s → digits n s ≡ some (value n s)
digits-value n [] h = refl
digits-value n (c ∷ s) ((a, b), h) =
    let t : (leb 48 c && leb c 57) ≡ true = ground arith in
    rw t (digits-value (n * 10 + (c - 48)) s h)

some_digits-itoa : (n : ℕ) → some_digits (itoa n) ≡ some n
some_digits-itoa n =
    let (d, s, e, h) = itoa-IsDigit n in
    rw e (digits-value 0 (d ∷ s) h ∙ ap some (ap (value 0) (sym e) ∙ value-itoa n))

parse_uint-itoa : (bits n : ℕ) → n < 2 ^ bits → parse_uint bits (itoa n) ≡ some n
unfolding parse_uint
parse_uint-itoa bits n h =
    let b : ltb n (2 ^ bits) ≡ true = ground arith in rw (parse_uint, some_digits-itoa n, b) refl

negated-suc : (n : ℕ) → negated (n + 1) ≡ negsuc n
negated-suc n =
    let b : (n + 1 == 0) ≡ false = ground arith in rw b (ap (λ (k : ℕ). negsuc k) (omega arith))

signed-suc : (half n : ℕ) → n < half → signed true half (n + 1) ≡ some (negsuc n)
signed-suc half n h =
    let b : leb (n + 1) half ≡ true = ground arith in rw b (ap some (negated-suc n))

parse_signed-itoa :
    (is_negative : Bool) (bits n : ℕ)
    → n < 2 ^ bits + 2 ^ bits
    → parse_signed is_negative (suc bits) (itoa n) ≡ signed is_negative (2 ^ bits) n
parse_signed-itoa is_negative bits n h =
    let d : suc bits - 1 ≡ bits = omega arith in
    rw (parse_signed, parse_uint-itoa (suc bits) n (rw (two-pow-succ bits) h), d) refl

parse_int-digits :
    (bits n : ℕ) → parse_int (suc bits) (itoa n) ≡ parse_signed false (suc bits) (itoa n)
unfolding parse_int
parse_int-digits bits n =
    let (d, s, e, (h, hs)) = itoa-IsDigit n in
    let p : (d == 43) ≡ false = ground arith in
    let m : (d == 45) ≡ false = ground arith in rw (e, p, m) refl

parse_int-format_int :
    (bits : ℕ) (n : ℤ) → Fits bits n → parse_int (suc bits) (format_int n) ≡ some n
unfolding parse_int
parse_int-format_int bits (pos n) h =
    let b : ltb n (2 ^ bits) ≡ true = ground arith in
    parse_int-digits bits n ∙ parse_signed-itoa false bits n (omega (arith, h)) ∙ rw b refl
parse_int-format_int bits (negsuc n) h =
    parse_signed-itoa true bits (n + 1) (omega (arith, h)) ∙ signed-suc (2 ^ bits) n h

abbrev text_of : Scan → Bytes
text_of (stored (stored_string s)) = s
text_of _ = []

read_back :
    (bits : ℕ) (n : ℤ) (text : Bytes)
    → Fits bits n
    → format_int n ≡ text
    → parsed (λ m. stored_int (wrap_int (suc bits) m)) (parse_int (suc bits) text)
      ≡ stored (stored_int n)
read_back bits n text h e =
    rw (sym e) (rw (parse_int-format_int bits n h, wrap_int-Fits bits n h) refl)

-- `ScanDriverValue` writes an `int64` into a text from which it reads the same number back, into any
-- signed integer type that has the number, whether the driver returns the text as a string or as
-- bytes.
pub scan_text-scan_int64 :
    (bits : ℕ) (n : ℤ)
    → Fits bits n
    → (text : Bytes) → scan_driver_value string_dest (int64 n) ≡ stored (stored_string text)
    → (scan_driver_value (int_dest (suc bits)) (string_value text) ≡ stored (stored_int n))
      × (scan_driver_value (int_dest (suc bits)) (bytes_value text) ≡ stored (stored_int n))
unfolding scan_driver_value scan_string_into
scan_text-scan_int64 bits n h text e = let r = read_back bits n text h (ap text_of e) in (r, r)
