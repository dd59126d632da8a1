-- ===== src/Quoting/Identifier.antt =====
-- A lexer reads back the identifier that `EscapeIdentifier` writes, in every dialect.
use go_sqldb.Prelude.{
  List, String, Bool, codes, map, bytes_eq, bytes_eq_sound, ap, sym, ◌∙◌, ◌&&◌, ℕ, ◌≡◌, refl, true,
  false, ◌||◌, Bool-cases, inl, inr, [], ◌∷◌, ◌++◌, some, append_assoc, arith, Bytes, ◌==◌, ==_iff,
  and_true, has_word,
}
use go_sqldb.Quoting.{
  Lexer, read_plain_word, all_plain, Dialect, needs_quotes, escape_identifier, read_quoted,
  read_identifier, span_word, letter, word_char, StartsWithout, to_lower,
}
use go_sqldb.Quoting.ReadBack.{read_quoted-double}

-- What a dialect of the code owes the lexer that reads what it writes: the quotes are the same, a
-- plain character is one of a word that the lexer stores as it is, the words hold every keyword of
-- the lexer, and a quote begins no word.
pub record IsLexical (d : Dialect) (l : Lexer) : Type 0 where
  pub opens_alike : l.open_quote ≡ d.open_quote
  pub closes_alike : l.close_quote ≡ d.close_quote
  pub plain_is_word : (c : ℕ) → d.plain c ≡ true → word_char c ≡ true
  pub plain_is_folded : (c : ℕ) → d.plain c ≡ true → l.fold c ≡ c
  pub keyword_is_word : (w : Bytes) → has_word l.keywords w ≡ true → has_word d.words w ≡ true
  pub quote_begins_none : letter d.open_quote ≡ false

-- Every word of the first list is in the second.
unfoldable pub contained : List String → List String → Bool
contained [] words = true
contained (k ∷ ks) words = has_word words (codes k) && contained ks words

pub contained-has_word :
    (ks words : List String) (w : Bytes)
    → contained ks words ≡ true
    → has_word ks w ≡ true
    → has_word words w ≡ true
unfolding contained has_word
contained-has_word [] words w h k = absurd cc
contained-has_word (k ∷ ks) words w h m = elim (Bool-cases (bytes_eq (codes k) w)) [
  | inl e ↦
      ap (has_word words) (sym (bytes_eq_sound (codes k) w e))
      ∙ (and_true (has_word words (codes k)) _ h).0
  | inr e ↦
      contained-has_word ks words w (and_true (has_word words (codes k)) _ h).1
        (ground (arith, e, m))
]

-- A name that is not empty, and begins like a word if its first character is plain.
abbrev pub BeginsWell : Dialect → Bytes → Type 0
BeginsWell d [] = ⊥
BeginsWell d (c ∷ s) = d.plain c ≡ true → letter c ≡ true

span_word_end : (rest : Bytes) → StartsWithout word_char rest → span_word rest ≡ ([], rest)
unfolding span_word
span_word_end [] h = refl
span_word_end (c ∷ s) h = rw h

span_word_step :
    (c : ℕ) (s w rest : Bytes)
    → word_char c ≡ true
    → span_word s ≡ (w, rest)
    → span_word (c ∷ s) ≡ (c ∷ w, rest)
unfolding span_word
span_word_step c s w rest h e = rw (h, e)

span_word-append :
    (d : Dialect) (l : Lexer) (law : IsLexical d l) (s rest : Bytes)
    → all_plain d.plain s ≡ true
    → StartsWithout word_char rest
    → span_word (s ++ rest) ≡ (s, rest)
unfolding all_plain
span_word-append d l law [] rest h w = span_word_end rest w
span_word-append d l law (c ∷ s) rest h w =
    span_word_step c (s ++ rest) s rest (law.plain_is_word c (ground arith))
      (span_word-append d l law s rest (ground arith) w)

-- A name that is left as it is holds plain characters only, and is no reserved word.
pub needs_quotes-false :
    (d : Dialect) (ident : Bytes)
    → needs_quotes d ident ≡ false
    → (all_plain d.plain ident ≡ true) × (has_word d.words (to_lower ident) ≡ false)
unfolding needs_quotes
needs_quotes-false d ident h = ground arith

StartsWithout-word :
    (d : Dialect) (rest : Bytes)
    → StartsWithout (λ c. word_char c || c == d.close_quote) rest
    → StartsWithout word_char rest
StartsWithout-word d [] h = tt
StartsWithout-word d (c ∷ s) h = ground arith

StartsWithout-quote :
    (d : Dialect) (rest : Bytes)
    → StartsWithout (λ c. word_char c || c == d.close_quote) rest
    → StartsWithout (λ c. c == d.close_quote) rest
StartsWithout-quote d [] h = tt
StartsWithout-quote d (c ∷ s) h = ground arith

read_quote :
    (d : Dialect) (l : Lexer) (law : IsLexical d l) (s : Bytes)
    → read_identifier l (d.open_quote ∷ s) ≡ read_quoted d.close_quote s
unfolding read_identifier
read_quote d l law s = rw (sym law.opens_alike, sym law.closes_alike) (ground arith)

plain_word :
    (l : Lexer) (s w rest : Bytes)
    → span_word s ≡ (w, rest)
    → has_word l.keywords (to_lower w) ≡ false
    → map l.fold w ≡ w
    → read_plain_word l s ≡ some (w, rest)
unfolding read_plain_word
plain_word l s w rest e n f = simp (e, n, f)

read_word :
    (d : Dialect) (l : Lexer) (law : IsLexical d l) (c : ℕ) (s w rest : Bytes)
    → letter c ≡ true
    → span_word (c ∷ s) ≡ (w, rest)
    → has_word l.keywords (to_lower w) ≡ false
    → map l.fold w ≡ w
    → read_identifier l (c ∷ s) ≡ some (w, rest)
unfolding read_identifier
read_word d l law c s w rest h e n f = elim (Bool-cases (c == l.open_quote)) [
  | inl q ↦ absurd (letter_not_quote q)
  | inr q ↦ rw (q, h) (plain_word l (c ∷ s) w rest e n f)
]
  where
    letter_not_quote : (c == l.open_quote) ≡ true → ⊥
    letter_not_quote q = cc ((==_iff c l.open_quote).0 q, law.opens_alike, law.quote_begins_none)

map-plain :
    (d : Dialect) (l : Lexer) (law : IsLexical d l) (s : Bytes)
    → all_plain d.plain s ≡ true
    → map l.fold s ≡ s
unfolding all_plain
map-plain d l law [] h = refl
map-plain d l law (c ∷ s) h =
    let (p, ps) = and_true (d.plain c) _ h in
    rw (law.plain_is_folded c p, map-plain d l law s ps) refl

-- A word that is none of the code's is no keyword of the lexer.
no_keyword :
    (d : Dialect) (l : Lexer) (law : IsLexical d l) (w : Bytes)
    → has_word d.words w ≡ false
    → has_word l.keywords w ≡ false
no_keyword d l law w h = elim (Bool-cases (has_word l.keywords w)) [
  | inl k ↦ absurd (cc (law.keyword_is_word w k, h))
  | inr k ↦ k
]

read_unquoted :
    (d : Dialect) (l : Lexer) (law : IsLexical d l) (ident rest : Bytes)
    → BeginsWell d ident
    → StartsWithout word_char rest
    → all_plain d.plain ident ≡ true
    → has_word d.words (to_lower ident) ≡ false
    → read_identifier l (ident ++ rest) ≡ some (ident, rest)
read_unquoted d l law [] rest b w p n = absurd b
read_unquoted d l law (c ∷ s) rest b w p n =
    read_word d l law c (s ++ rest) (c ∷ s) rest (b (head_plain p))
      (span_word-append d l law (c ∷ s) rest p w) (no_keyword d l law _ n)
      (map-plain d l law (c ∷ s) p)
  where
    head_plain : all_plain d.plain (c ∷ s) ≡ true → d.plain c ≡ true
    head_plain p = unfold all_plain in (and_true (d.plain c) _ p).0

pub read_identifier-escape_identifier :
    (d : Dialect) (l : Lexer) (ident rest : Bytes)
    → IsLexical d l
    → BeginsWell d ident
    → StartsWithout (λ c. word_char c || c == d.close_quote) rest
    → read_identifier l (escape_identifier d ident ++ rest) ≡ some (ident, rest)
unfolding escape_identifier
read_identifier-escape_identifier d l ident rest law b w =
    elim (Bool-cases (needs_quotes d ident)) [
      | inl q ↦
          rw (q, append_assoc, read_quote d l law)
            (read_quoted-double d.close_quote ident rest (StartsWithout-quote d rest w))
      | inr q ↦ rw q (
          let (p, n) = needs_quotes-false d ident q in
          read_unquoted d l law ident rest b (StartsWithout-word d rest w) p n)
    ]
