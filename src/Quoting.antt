-- ===== src/Quoting.antt =====
-- Quoted SQL text: `QuoteStringLiteral` of format.go, and what the `EscapeIdentifier` functions of
-- the drivers have in common. `Lexer`, `read_quoted` and `read_identifier` are the side of the
-- database, which reads the text: they are described apart from the code that writes it.
pub mod ReadBack
pub mod Identifier
use go_sqldb.Prelude.{
  ℕ, ◌+◌, ◌-◌, Bool, true, false, not, ◌&&◌, ◌||◌, List, [], ◌∷◌, ◌++◌, Option, none, some, String,
  ◌≡◌, Bytes, length, leb, ◌==◌, if◌then◌else◌, has_word, map,
}

-- `strings.ReplaceAll(s, q, q+q)` for one byte `q`.
pub double : ℕ → Bytes → Bytes
double q [] = []
double q (c ∷ s) = let rest = double q s in if c == q then q ∷ q ∷ rest else c ∷ rest

unfoldable pub quote_string_literal : Bytes → Bytes
unfolding double
quote_string_literal str = b'\'' ∷ (double b'\'' str ++ b'\'' ∷ [])

-- `strings.ToLower` at the ASCII letters.
abbrev pub lower : ℕ → ℕ
lower c = if leb b'A' c && leb c b'Z' then c + 32 else c

abbrev pub to_lower : Bytes → Bytes
to_lower [] = []
to_lower (c ∷ s) = lower c ∷ to_lower s

-- The loop `for _, r := range ident` that looks for a character which wants quotes.
pub all_plain : (ℕ → Bool) → Bytes → Bool
all_plain plain [] = true
all_plain plain (r ∷ s) = plain r && all_plain plain s

-- A driver's way to quote identifiers: the quotes, the characters that need none, and the
-- reserved words.
pub record Dialect : Type 0 where
  pub open_quote : ℕ
  pub close_quote : ℕ
  pub plain : ℕ → Bool
  pub words : List String

-- The tests of `EscapeIdentifier`, in their order.
pub needs_quotes : Dialect → Bytes → Bool
unfolding double all_plain
needs_quotes d ident =
    if not (length (double d.close_quote ident) == length ident)
    then true
    else if not (all_plain d.plain ident)
    then true
    else has_word d.words (to_lower ident)

unfoldable pub escape_identifier : Dialect → Bytes → Bytes
unfolding needs_quotes
escape_identifier d ident =
    if needs_quotes d ident
    then d.open_quote ∷ (double d.close_quote ident ++ d.close_quote ∷ [])
    else ident

-- What a lexer reads behind an opening quote: the text up to a closing quote that stands alone,
-- and the rest of the input.
abbrev push : ℕ → Option (Bytes × Bytes) → Option (Bytes × Bytes)
push c none = none
push c (some (s, rest)) = some (c ∷ s, rest)

pub read_quoted : ℕ → Bytes → Option (Bytes × Bytes)
read_quoted q [] = none
read_quoted q (c ∷ []) = if c == q then some ([], []) else none
read_quoted q (c ∷ d ∷ s) = elim (c == q) [
  | false ↦ push c (read_quoted q (d ∷ s))
  | true ↦ elim (d == q) [ true ↦ push q (read_quoted q s) | false ↦ some ([], d ∷ s) ]
]

pub read_literal : Bytes → Option (Bytes × Bytes)
unfolding read_quoted
read_literal [] = none
read_literal (c ∷ s) = if c == b'\'' then read_quoted b'\'' s else none

-- The characters of an unquoted identifier, and those that may begin one.
abbrev pub letter : ℕ → Bool
letter c = leb b'a' c && leb c b'z' || leb b'A' c && leb c b'Z' || c == b'_'

abbrev pub word_char : ℕ → Bool
word_char c = letter c || leb b'0' c && leb c b'9'

pub span_word : Bytes → Bytes × Bytes
span_word [] = ([], [])
span_word (c ∷ s) =
    let (w, rest) = span_word s in if word_char c then (c ∷ w, rest) else ([], c ∷ s)

-- How a database reads identifiers: its quotes, the character that it stores for one that is not
-- quoted, and the words that it reads as an identifier only in quotes, in any case of their letters.
pub record Lexer : Type 0 where
  pub open_quote : ℕ
  pub close_quote : ℕ
  pub fold : ℕ → ℕ
  pub keywords : List String

-- The folded word, unless it is a keyword.
pub read_plain_word : Lexer → Bytes → Option (Bytes × Bytes)
read_plain_word l s =
    let (w, rest) = span_word s in
    if has_word l.keywords (to_lower w) then none else some (map l.fold w, rest)

-- What a lexer reads as an identifier: quoted text as it is, or a folded word.
pub read_identifier : Lexer → Bytes → Option (Bytes × Bytes)
read_identifier l [] = none
read_identifier l (c ∷ s) =
    if c == l.open_quote
    then read_quoted l.close_quote s
    else if letter c
    then read_plain_word l (c ∷ s)
    else none

-- The input behind a token does not go on with a byte of some kind.
abbrev pub StartsWithout : (ℕ → Bool) → Bytes → Type 0
StartsWithout p [] = Unit
StartsWithout p (c ∷ s) = p c ≡ false
