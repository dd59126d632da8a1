-- ===== src/Mysql/Literal.antt =====
-- A MySQL lexer reads back the string literal that `FormatStringLiteral` writes.
use go_sqldb.Prelude.{
  ℕ, ◌≡◌, ◌≢◌, refl, true, false, [], ◌∷◌, ◌++◌, Option, none, some, append_assoc, arith, Bytes,
  ◌==◌, if◌then◌else◌,
}
use go_sqldb.Quoting.{StartsWithout}
use go_sqldb.Mysql.Formatter.{escape_byte, escape_bytes, format_string_literal}

-- The byte that a backslash and `c` stand for, in the default mode of MySQL.
unescape_byte : ℕ → ℕ
unescape_byte c =
    if c == b'0'
    then 0
    else if c == b'n'
    then b'\n'
    else if c == b'r'
    then b'\r'
    else if c == b'Z'
    then 0x1a
    else if c == b'b'
    then 8
    else if c == b't'
    then 9
    else c

abbrev push : ℕ → Option (Bytes × Bytes) → Option (Bytes × Bytes)
push c none = none
push c (some (s, rest)) = some (c ∷ s, rest)

-- The text of a literal behind its opening quote, and the rest of the input. A quote ends it,
-- unless a backslash or a further quote makes it a character.
read_body : Bytes → Option (Bytes × Bytes)
unfolding unescape_byte
read_body [] = none
read_body (c ∷ []) = if c == b'\'' then some ([], []) else none
read_body (c ∷ d ∷ s) = elim (c == b'\\') [
  | true ↦ push (unescape_byte d) (read_body s)
  | false ↦ elim (c == b'\'') [
    | true ↦ elim (d == b'\'') [ true ↦ push b'\'' (read_body s) | false ↦ some ([], d ∷ s) ]
    | false ↦ push c (read_body (d ∷ s))
  ]
]

pub read_string : Bytes → Option (Bytes × Bytes)
unfolding read_body
read_string [] = none
read_string (c ∷ s) = if c == b'\'' then read_body s else none

read_body-end :
    (rest : Bytes)
    → StartsWithout (λ c. c == b'\'') rest
    → read_body (b'\'' ∷ rest) ≡ some ([], rest)
unfolding read_body
read_body-end [] h = refl
read_body-end (c ∷ rest) h = ground arith

read_body-escape_byte :
    (c d : ℕ) (s : Bytes) → read_body (escape_byte c ++ d ∷ s) ≡ push c (read_body (d ∷ s))
unfolding read_body escape_byte
read_body-escape_byte c d s = ground arith

read_body-escape_byte_ne :
    (c : ℕ) (s : Bytes) → s ≢ [] → read_body (escape_byte c ++ s) ≡ push c (read_body s)
read_body-escape_byte_ne c [] n = absurd (n refl)
read_body-escape_byte_ne c (d ∷ s) n = read_body-escape_byte c d s

append-cons-ne-nil : (s : Bytes) (c : ℕ) (rest : Bytes) → s ++ c ∷ rest ≢ []
append-cons-ne-nil [] c rest e = cc
append-cons-ne-nil (x ∷ s) c rest e = cc

escape_bytes_step :
    (c : ℕ) (s rest : Bytes)
    → escape_bytes (c ∷ s) ++ rest ≡ escape_byte c ++ (escape_bytes s ++ rest)
unfolding escape_bytes
escape_bytes_step c s rest = append_assoc (escape_byte c) (escape_bytes s) rest

read_body-escape_bytes :
    (str rest : Bytes)
    → StartsWithout (λ c. c == b'\'') rest
    → read_body (escape_bytes str ++ b'\'' ∷ rest) ≡ some (str, rest)
read_body-escape_bytes [] rest h = unfold escape_bytes in read_body-end rest h
read_body-escape_bytes (c ∷ s) rest h = rw (
  escape_bytes_step,
  read_body-escape_byte_ne c _ (append-cons-ne-nil (escape_bytes s) b'\'' rest),
  read_body-escape_bytes s rest h,
)

-- A MySQL lexer in the default mode, where a backslash escapes, reads the literal that
-- FormatStringLiteral writes as the string that was given, for every string, and stops at the end
-- of the literal, if no further single quote follows.
pub read_string-format_string_literal :
    (str rest : Bytes)
    → StartsWithout (λ c. c == b'\'') rest
    → read_string (format_string_literal str ++ rest) ≡ some (str, rest)
unfolding read_string format_string_literal
read_string-format_string_literal str rest h = rw append_assoc (read_body-escape_bytes str rest h)
