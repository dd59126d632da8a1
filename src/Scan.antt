-- ===== src/Scan.antt =====
-- `ScanDriverValue` and `scanStringInto` of scan.go for integers, booleans and texts. A destination
-- that scans itself, decimals, floating point numbers and times are left out.
pub mod Bounds
pub mod Decimal
use go_sqldb.Prelude.{
  ℕ, suc, ◌+◌, ◌-◌, ◌*◌, ◌%◌, ◌^◌, ltb, leb, ◌==◌, Bool, true, false, not, ◌&&◌, List, [], ◌∷◌,
  Option, none, some, Bytes, codes, has_word, if◌then◌else◌,
}
use go_sqldb.Formatter.Placeholder.{itoa}
use go_sqldb.Query.{ℤ}
use go_sqldb.Query.ℤ.{pos, negsuc}

-- `driver.Value`; an `int64` is a number between -2 ^ 63 and 2 ^ 63 - 1.
pub data DriverValue : Type 0 where
  int64 : ℤ → DriverValue
  bool_value : Bool → DriverValue
  bytes_value : Bytes → DriverValue
  string_value : Bytes → DriverValue
  null : DriverValue

-- The type that the destination points to; integers have their number of bits.
pub data Dest : Type 0 where
  int_dest uint_dest : ℕ → Dest
  bool_dest string_dest bytes_dest other_slice map_dest any_dest other_dest : Dest
  pointer_dest : Dest → Dest

-- What a destination holds afterwards.
pub data Stored : Type 0 where
  stored_int : ℤ → Stored
  stored_uint : ℕ → Stored
  stored_bool : Bool → Stored
  stored_string : Bytes → Stored
  stored_bytes : Bytes → Stored
  stored_any : DriverValue → Stored
  stored_nil : Stored

pub data ScanError : Type 0 where
  overflows negative_value no_bool_value unparsable unsupported : ScanError

pub data Scan : Type 0 where
  stored : Stored → Scan
  scan_error : ScanError → Scan

-- The `bits` low bits of a number, as `SetInt` and `SetUint` keep them.
unfoldable pub wrap_uint : ℕ → ℕ → ℕ
wrap_uint bits n = n % 2 ^ bits

abbrev pub sign_extended : ℕ → ℕ → ℕ → ℤ
sign_extended half full r = if ltb r half then pos r else negsuc (full - 1 - r)

abbrev pub sign_extended_negative : ℕ → ℕ → ℕ → ℤ
sign_extended_negative half full r = if ltb r half then negsuc r else pos (full - 1 - r)

unfoldable pub wrap_int : ℕ → ℤ → ℤ
wrap_int bits (pos n) = sign_extended (2 ^ (bits - 1)) (2 ^ bits) (n % 2 ^ bits)
wrap_int bits (negsuc n) = sign_extended_negative (2 ^ (bits - 1)) (2 ^ bits) (n % 2 ^ bits)

abbrev pub int_eq : ℤ → ℤ → Bool
int_eq (pos m) (pos n) = m == n
int_eq (negsuc m) (negsuc n) = m == n
int_eq _ _ = false

-- `reflect.Value.OverflowInt` and `OverflowUint`: the number is not its own low bits.
unfoldable pub overflow_int : ℕ → ℤ → Bool
overflow_int bits n = not (int_eq n (wrap_int bits n))

unfoldable pub overflow_uint : ℕ → ℕ → Bool
overflow_uint bits n = not (n == wrap_uint bits n)

-- `strconv.FormatInt` and `strconv.FormatBool`
abbrev pub format_int : ℤ → Bytes
format_int (pos n) = itoa n
format_int (negsuc n) = 45 ∷ itoa (n + 1)

abbrev format_bool : Bool → Bytes
format_bool true = codes "true"
format_bool false = codes "false"

-- The digits of `strconv.ParseUint`, behind a value.
abbrev pub digits : ℕ → Bytes → Option ℕ
digits n [] = some n
digits n (c ∷ s) =
    let rest = digits (n * 10 + (c - 48)) s in if leb 48 c && leb c 57 then rest else none

abbrev pub some_digits : Bytes → Option ℕ
some_digits [] = none
some_digits (c ∷ s) = digits 0 (c ∷ s)

unfoldable pub parse_uint : ℕ → Bytes → Option ℕ
parse_uint bits s = elim (some_digits s) [
  | none ↦ none
  | some n ↦ if ltb n (2 ^ bits) then some n else none
]

abbrev pub negated : ℕ → ℤ
negated n = if n == 0 then pos 0 else negsuc (n - 1)

abbrev pub signed : Bool → ℕ → ℕ → Option ℤ
signed true half n = if leb n half then some (negated n) else none
signed false half n = if ltb n half then some (pos n) else none

abbrev pub parse_signed : Bool → ℕ → Bytes → Option ℤ
parse_signed is_negative bits s = elim (parse_uint bits s) [
  | none ↦ none
  | some n ↦ signed is_negative (2 ^ (bits - 1)) n
]

-- `strconv.ParseInt` with base 10: a sign, and the magnitude within the range.
unfoldable pub parse_int : ℕ → Bytes → Option ℤ
parse_int bits [] = none
parse_int bits (c ∷ s) =
    if c == 43
    then parse_signed false bits s
    else if c == 45
    then parse_signed true bits s
    else parse_signed false bits (c ∷ s)

-- `strconv.ParseBool`
unfoldable pub parse_bool : Bytes → Option Bool
parse_bool s =
    if has_word ("1" ∷ "t" ∷ "T" ∷ "true" ∷ "TRUE" ∷ "True" ∷ []) s
    then some true
    else if has_word ("0" ∷ "f" ∷ "F" ∷ "false" ∷ "FALSE" ∷ "False" ∷ []) s
    then some false
    else none

abbrev pub parsed : {A : Type 0} → (A → Stored) → Option A → Scan
parsed store none = scan_error unparsable
parsed store (some a) = stored (store a)

-- `scanStringInto`
unfoldable pub scan_string_into : Dest → Bytes → Scan
scan_string_into bool_dest s = parsed stored_bool (parse_bool s)
scan_string_into (int_dest bits) s = parsed (λ n. stored_int (wrap_int bits n)) (parse_int bits s)
scan_string_into (uint_dest bits) s =
    parsed (λ n. stored_uint (wrap_uint bits n)) (parse_uint bits s)
scan_string_into _ s = scan_error unsupported

abbrev int64_bool : ℤ → Scan
int64_bool (pos n) =
    if n == 0
    then stored (stored_bool false)
    else if n == 1
    then stored (stored_bool true)
    else scan_error no_bool_value
int64_bool (negsuc n) = scan_error no_bool_value

abbrev int64_uint : ℕ → ℤ → Scan
int64_uint bits (negsuc n) = scan_error negative_value
int64_uint bits (pos n) =
    if overflow_uint bits n then scan_error overflows else stored (stored_uint (wrap_uint bits n))

-- The cases of `ScanDriverValue` by the type of the value.
abbrev scan_int64 : Dest → ℤ → Scan
scan_int64 (int_dest bits) n =
    if overflow_int bits n then scan_error overflows else stored (stored_int (wrap_int bits n))
scan_int64 (uint_dest bits) n = int64_uint bits n
scan_int64 bool_dest n = int64_bool n
scan_int64 string_dest n = stored (stored_string (format_int n))
scan_int64 bytes_dest n = stored (stored_bytes (format_int n))
scan_int64 _ n = scan_error unsupported

abbrev scan_bool : Dest → Bool → Scan
scan_bool bool_dest b = stored (stored_bool b)
scan_bool string_dest b = stored (stored_string (format_bool b))
scan_bool bytes_dest b = stored (stored_bytes (format_bool b))
scan_bool _ b = scan_error unsupported

-- A text, of `string` or of `[]byte`.
abbrev scan_text : Dest → Bytes → Scan
scan_text string_dest s = stored (stored_string s)
scan_text bytes_dest s = stored (stored_bytes s)
scan_text d s = scan_string_into d s

abbrev scan_null : Dest → Scan
scan_null bytes_dest = stored stored_nil
scan_null other_slice = stored stored_nil
scan_null map_dest = stored stored_nil
scan_null _ = scan_error unsupported

abbrev scan_value : Dest → DriverValue → Scan
scan_value d (int64 n) = scan_int64 d n
scan_value d (bool_value b) = scan_bool d b
scan_value d (bytes_value s) = scan_text d s
scan_value d (string_value s) = scan_text d s
scan_value d null = scan_null d

abbrev is_null : DriverValue → Bool
is_null null = true
is_null _ = false

-- An interface takes the value; a pointer is set to nil, or the value is scanned through it.
unfoldable pub scan_driver_value : Dest → DriverValue → Scan
scan_driver_value any_dest value =
    if is_null value then stored stored_nil else stored (stored_any value)
scan_driver_value (pointer_dest d) value =
    let through = scan_driver_value d value in if is_null value then stored stored_nil else through
scan_driver_value d value = scan_value d value
