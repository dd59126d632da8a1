-- ===== src/Errors/Messages.antt =====
-- How errors.go of the drivers cut names out of the messages of the server.
use go_sqldb.Prelude.{
  ℕ, zero, suc, ◌≡◌, refl, arith, Bool, false, ◌||◌, ◌==◌, List, [], ◌∷◌, ◌++◌, Option, none, some,
  Bytes, has_prefix, if◌then◌else◌, join, All, bytes_eq, append-nil, ◌∙◌,
}

-- `strings.Index(s, "c")` with the slices before and behind it.
unfoldable pub cut : ℕ → Bytes → Option (Bytes × Bytes)
cut c [] = none
cut c (d ∷ s) =
    let rest = cut c s in
    if d == c
    then some ([], s)
    else elim rest [ none ↦ none | some (before, after) ↦ some (d ∷ before, after) ]

-- The loop of `nthSingleQuoted` and `nthBacktickQuoted`, whose bodies differ in the quote only; the
-- rounds left are counted down.
unfoldable pub nth_quoted : ℕ → Bytes → ℕ → Bytes
nth_quoted quote s zero = elim (cut quote s) [
  | none ↦ []
  | some (before, rest) ↦ elim (cut quote rest) [ none ↦ [] | some (quoted, after) ↦ quoted ]
]
nth_quoted quote s (suc n) = elim (cut quote s) [
  | none ↦ []
  | some (before, rest) ↦ elim (cut quote rest) [
    | none ↦ []
    | some (quoted, after) ↦ nth_quoted quote after n
  ]
]

-- `strings.Contains(s, p)`, the part first.
unfoldable pub contains : Bytes → Bytes → Bool
contains p [] = has_prefix p []
contains p (c ∷ s) = has_prefix p (c ∷ s) || contains p s

-- `strings.LastIndex(s, "c")` with the slice behind it.
unfoldable pub last_after : ℕ → Bytes → Option Bytes
last_after c [] = none
last_after c (d ∷ s) =
    let rest = last_after c s in
    elim rest [ some after ↦ some after | none ↦ if d == c then some s else none ]

-- `slices.Contains`
unfoldable pub contains_name : List Bytes → Bytes → Bool
contains_name [] name = false
contains_name (n ∷ names) name = bytes_eq n name || contains_name names name

-- Without the byte `c`.
abbrev pub IsFree : ℕ → Bytes → Type 0
IsFree c s = All (λ d. d == c ≡ false) s

-- The pieces of a text between the quotes in it: the quoted ones are the second, the fourth and so
-- on, up to the last but one.
abbrev pub quoted_piece : List Bytes → ℕ → Bytes
quoted_piece [] n = []
quoted_piece (a ∷ []) n = []
quoted_piece (a ∷ b ∷ []) n = []
quoted_piece (a ∷ b ∷ c ∷ pieces) zero = b
quoted_piece (a ∷ b ∷ c ∷ pieces) (suc n) = quoted_piece (c ∷ pieces) n

pub cut-free : (c : ℕ) (p : Bytes) → IsFree c p → cut c p ≡ none
unfolding cut
cut-free c [] h = refl
cut-free c (d ∷ p) (e, h) = rw (e, cut-free c p h) refl

pub cut-append : (c : ℕ) (p s : Bytes) → IsFree c p → cut c (p ++ c ∷ s) ≡ some (p, s)
unfolding cut
cut-append c [] s h = ground arith
cut-append c (d ∷ p) s (e, h) = rw (e, cut-append c p s h) refl

nth_quoted-unquoted :
    (quote : ℕ) (s : Bytes) (n : ℕ) → cut quote s ≡ none → nth_quoted quote s n ≡ []
unfolding nth_quoted
nth_quoted-unquoted quote s zero e = rw (nth_quoted, e) refl
nth_quoted-unquoted quote s (suc n) e = rw (nth_quoted, e) refl

nth_quoted-unclosed :
    (quote : ℕ) (s before rest : Bytes) (n : ℕ)
    → cut quote s ≡ some (before, rest)
    → cut quote rest ≡ none
    → nth_quoted quote s n ≡ []
unfolding nth_quoted
nth_quoted-unclosed quote s before rest zero e e' = rw (nth_quoted, e, e') refl
nth_quoted-unclosed quote s before rest (suc n) e e' = rw (nth_quoted, e, e') refl

nth_quoted-first :
    (quote : ℕ) (s before rest quoted after : Bytes)
    → cut quote s ≡ some (before, rest)
    → cut quote rest ≡ some (quoted, after)
    → nth_quoted quote s 0 ≡ quoted
unfolding nth_quoted
nth_quoted-first quote s before rest quoted after e e' = rw (nth_quoted, e, e') refl

nth_quoted-next :
    (quote : ℕ) (s before rest quoted after : Bytes) (n : ℕ)
    → cut quote s ≡ some (before, rest)
    → cut quote rest ≡ some (quoted, after)
    → nth_quoted quote s (suc n) ≡ nth_quoted quote after n
unfolding nth_quoted
nth_quoted-next quote s before rest quoted after n e e' = rw (nth_quoted, e, e') refl

-- For a text in which `quote` stands exactly between the pieces given, `nthSingleQuoted` and
-- `nthBacktickQuoted` return the nth quoted piece, and nothing when there are fewer.
pub nth_quoted-pieces :
    (quote : ℕ) (pieces : List Bytes) (n : ℕ)
    → All (IsFree quote) pieces
    → nth_quoted quote (join (quote ∷ []) pieces) n ≡ quoted_piece pieces n
unfolding nth_quoted
nth_quoted-pieces quote [] n h = nth_quoted-unquoted quote [] n (cut-free quote [] tt)
nth_quoted-pieces quote (a ∷ []) n (ha, h) =
    nth_quoted-unquoted quote (a ++ []) n (rw (append-nil a) (cut-free quote a ha))
nth_quoted-pieces quote (a ∷ b ∷ []) n (ha, (hb, h)) =
    nth_quoted-unclosed quote _ a (b ++ []) n (cut-append quote a (b ++ []) ha)
      (rw (append-nil b) (cut-free quote b hb))
nth_quoted-pieces quote (a ∷ b ∷ c ∷ pieces) zero (ha, (hb, h)) =
    nth_quoted-first quote _ a (join (quote ∷ []) (b ∷ c ∷ pieces)) b
      (join (quote ∷ []) (c ∷ pieces)) (cut-append quote a _ ha) (cut-append quote b _ hb)
nth_quoted-pieces quote (a ∷ b ∷ c ∷ pieces) (suc n) (ha, (hb, h)) =
    nth_quoted-next quote _ a (join (quote ∷ []) (b ∷ c ∷ pieces)) b
      (join (quote ∷ []) (c ∷ pieces)) n (cut-append quote a _ ha) (cut-append quote b _ hb)
    ∙ nth_quoted-pieces quote (c ∷ pieces) n h

last_after-free : (c : ℕ) (s : Bytes) → IsFree c s → last_after c s ≡ none
unfolding last_after
last_after-free c [] h = refl
last_after-free c (d ∷ s) (e, h) = rw (last_after-free c s h, e) refl

pub last_after-append : (c : ℕ) (p s : Bytes) → IsFree c s → last_after c (p ++ c ∷ s) ≡ some s
unfolding last_after
last_after-append c [] s h = rw (last_after-free c s h) (ground arith)
last_after-append c (d ∷ p) s h = rw (last_after-append c p s h) refl

pub IsFree-append : (c : ℕ) (xs ys : Bytes) → IsFree c xs → IsFree c ys → IsFree c (xs ++ ys)
IsFree-append c [] ys h h' = h'
IsFree-append c (x ∷ xs) ys (e, h) h' = (e, IsFree-append c xs ys h h')
