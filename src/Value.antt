-- ===== src/Value.antt =====
-- Query arguments of type `any` and `FormatValue` of format.go, with `KeepSecret` of secret.go.
-- A value is what the type switch of `FormatValue` distinguishes. What the methods of a value
-- answer (`Value()` of a driver.Valuer, `String()` of a Secret, the formatted time) and the text
-- that fmt.Sprint prints stand in the value itself.
pub mod Redaction
pub mod Literal
use go_sqldb.Prelude.{
  ℕ, zero, suc, ◌+◌, ◌-◌, ◌/◌, ◌%◌, Bool, true, false, ◌&&◌, ◌||◌, List, [], ◌∷◌, ◌++◌, Option,
  none, some, arith, Bytes, codes, ltb, leb, ◌==◌, if◌then◌else◌, Error, Result, ok, err,
}
use go_sqldb.Quoting.{quote_string_literal}

pub data Value : Type 0 where
  nil : Value
  secret : Bytes → Value → Value
  nil_valuer : Value
  valuer : Value → Value
  failing_valuer : Error → Value
  time : Bytes → Value
  nil_pointer : Value
  pointer : Value → Value
  boolean : Bool → Value
  string : Bytes → Value
  bytes : Bytes → Value
  other : Bytes → Value

pub redacted : Bytes
redacted = codes "***REDACTED***"

pub keep_secret : Value → Value
unfolding redacted
keep_secret val = secret redacted val

-- `unicode/utf8.Valid`: what the first byte of a sequence says of the bytes behind it, the number
-- of them and the range of the first of them.
lead : ℕ → Option (ℕ × ℕ × ℕ)
lead c =
    if ltb c 0x80
    then some (0, 0x80, 0xBF)
    else if leb 0xC2 c && leb c 0xDF
    then some (1, 0x80, 0xBF)
    else if c == 0xE0
    then some (2, 0xA0, 0xBF)
    else if c == 0xED
    then some (2, 0x80, 0x9F)
    else if leb 0xE1 c && leb c 0xEF
    then some (2, 0x80, 0xBF)
    else if c == 0xF0
    then some (3, 0x90, 0xBF)
    else if leb 0xF1 c && leb c 0xF3
    then some (3, 0x80, 0xBF)
    else if c == 0xF4
    then some (3, 0x80, 0x8F)
    else none

utf8_scan : ℕ → ℕ → ℕ → Bytes → Bool
unfolding lead
utf8_scan zero lo hi [] = true
utf8_scan (suc more) lo hi [] = false
utf8_scan zero lo hi (c ∷ s) = elim (lead c) [
  | none ↦ false
  | some (more, lo', hi') ↦ utf8_scan more lo' hi' s
]
utf8_scan (suc more) lo hi (c ∷ s) = leb lo c && leb c hi && utf8_scan more 0x80 0xBF s

pub utf8_valid : Bytes → Bool
unfolding utf8_scan
utf8_valid s = utf8_scan 0 0x80 0xBF s

-- `hex.EncodeToString`.
hex_digit : ℕ → ℕ
hex_digit d = if ltb d 10 then b'0' + d else b'a' + (d - 10)

pub encode_hex : Bytes → Bytes
unfolding hex_digit
encode_hex [] = []
encode_hex (c ∷ s) = hex_digit (c / 16) ∷ hex_digit (c % 16) ∷ encode_hex s

last_byte : ℕ → Bytes → ℕ
last_byte c [] = c
last_byte c (d ∷ s) = last_byte d s

-- `len(s) >= 2 && (s[0] == '{' && s[l-1] == '}' || s[0] == '[' && s[l-1] == ']')`.
pub is_wrapped : Bytes → Bool
unfolding last_byte
is_wrapped [] = false
is_wrapped (c ∷ []) = false
is_wrapped (c ∷ d ∷ s) = c == b'{' && last_byte d s == b'}' || c == b'[' && last_byte d s == b']'

-- The two cases for text, of a string and of valid UTF-8 in a []byte.
pub format_text : Bytes → Bytes
unfolding is_wrapped
format_text s = if is_wrapped s then b'\'' ∷ (s ++ b'\'' ∷ []) else quote_string_literal s

unfoldable pub format_value : Value → Result Bytes
unfolding format_text utf8_valid encode_hex
format_value nil = ok (codes "NULL")
format_value (secret shown val) = ok (quote_string_literal shown)
format_value nil_valuer = ok (codes "NULL")
format_value (valuer value) = format_value value
format_value (failing_valuer e) = err e
format_value (time t) = ok t
format_value nil_pointer = ok (codes "NULL")
format_value (pointer elem) = format_value elem
format_value (boolean true) = ok (codes "TRUE")
format_value (boolean false) = ok (codes "FALSE")
format_value (string s) = ok (format_text s)
format_value (bytes b) =
    if utf8_valid b
    then ok (format_text b)
    else ok (b'\'' ∷ b'\\' ∷ b'x' ∷ (encode_hex b ++ b'\'' ∷ []))
format_value (other text) = ok text
