-- ===== src/Quoting/ReadBack.antt =====
-- A lexer reads back what the quoting functions write.
use go_sqldb.Prelude.{
  ℕ, ◌≡◌, ◌≢◌, refl, false, Bool-cases, inl, inr, [], ◌∷◌, ◌++◌, some, append_assoc, arith, Bytes,
  ◌==◌, ==_iff, all, not, true,
}
use go_sqldb.Quoting.{double, quote_string_literal, push, read_quoted, read_literal, StartsWithout}

-- A closing quote that stands alone ends the text.
read_quoted_end :
    (q : ℕ) (rest : Bytes)
    → StartsWithout (λ c. c == q) rest
    → read_quoted q (q ∷ rest) ≡ some ([], rest)
unfolding read_quoted
read_quoted_end q [] h = ground arith
read_quoted_end q (c ∷ rest) h = ground arith

read_quoted_twice : (q : ℕ) (s : Bytes) → read_quoted q (q ∷ q ∷ s) ≡ push q (read_quoted q s)
unfolding read_quoted
read_quoted_twice q s = ground arith

read_quoted_other :
    (q c : ℕ) (s : Bytes)
    → (c == q) ≡ false
    → s ≢ []
    → read_quoted q (c ∷ s) ≡ push c (read_quoted q s)
unfolding read_quoted
read_quoted_other q c [] h n = absurd (n refl)
read_quoted_other q c (d ∷ s) h n = ground arith

append-cons-ne-nil : (s : Bytes) (c : ℕ) (rest : Bytes) → s ++ c ∷ rest ≢ []
append-cons-ne-nil [] c rest e = cc
append-cons-ne-nil (x ∷ s) c rest e = cc

double_self : (q : ℕ) (s : Bytes) → double q (q ∷ s) ≡ q ∷ q ∷ double q s
unfolding double
double_self q s = ground arith

double_other : (q c : ℕ) (s : Bytes) → (c == q) ≡ false → double q (c ∷ s) ≡ c ∷ double q s
unfolding double
double_other q c s h = rw h

-- Doubling a quote is undone by reading up to a quote that stands alone.
pub read_quoted-double :
    (q : ℕ) (s rest : Bytes)
    → StartsWithout (λ c. c == q) rest
    → read_quoted q (double q s ++ q ∷ rest) ≡ some (s, rest)
read_quoted-double q [] rest h = unfold double in read_quoted_end q rest h
read_quoted-double q (c ∷ s) rest h = elim (Bool-cases (c == q)) [
  | inl e ↦ rw ((==_iff c q).0 e, double_self, read_quoted_twice, read_quoted-double q s rest h)
  | inr e ↦ rw (
    double_other q c s e,
    read_quoted_other q c _ e (append-cons-ne-nil (double q s) q rest),
    read_quoted-double q s rest h,
  )
]

-- A SQL lexer that reads the literal which QuoteStringLiteral writes, followed by anything but a
-- further single quote, gets the string back whole and stops exactly at its end.
pub read_literal-quote_string_literal :
    (str rest : Bytes)
    → StartsWithout (λ c. c == b'\'') rest
    → read_literal (quote_string_literal str ++ rest) ≡ some (str, rest)
unfolding read_literal quote_string_literal
read_literal-quote_string_literal str rest h = rw append_assoc (read_quoted-double b'\'' str rest h)

read_quoted-unescaped :
    (a rest : Bytes)
    → all (λ c. not (c == b'\'')) a ≡ true
    → StartsWithout (λ c. c == b'\'') rest
    → read_quoted b'\'' (a ++ b'\'' ∷ rest) ≡ some (a, rest)
read_quoted-unescaped [] rest h w = read_quoted_end b'\'' rest w
read_quoted-unescaped (c ∷ a) rest h w = rw (
  read_quoted_other b'\'' c _ (ground arith) (append-cons-ne-nil a b'\'' rest),
  read_quoted-unescaped a rest (ground arith) w,
)

-- Text without a single quote between two of them is a literal.
pub read_literal-unescaped :
    (a rest : Bytes)
    → all (λ c. not (c == b'\'')) a ≡ true
    → StartsWithout (λ c. c == b'\'') rest
    → read_literal (b'\'' ∷ (a ++ b'\'' ∷ rest)) ≡ some (a, rest)
unfolding read_literal
read_literal-unescaped a rest h w = read_quoted-unescaped a rest h w
