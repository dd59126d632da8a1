-- ===== src/Space.antt =====
-- `strings.TrimSpace` and `strings.Split` of one byte, on the bytes of UTF-8 text.
use go_sqldb.Prelude.{
  has_prefix, ℕ, zero, suc, List, [], ◌∷◌, map, Bytes, length, ◌==◌, if◌then◌else◌,
}
use mathlib.Core.List.{reverse}

-- The encodings of the characters of `unicode.IsSpace`.
abbrev space_codes : List Bytes
space_codes =
    (9 ∷ [])
    ∷ (10 ∷ [])
    ∷ (11 ∷ [])
    ∷ (12 ∷ [])
    ∷ (13 ∷ [])
    ∷ (32 ∷ [])
    ∷ (0xC2 ∷ 0x85 ∷ [])
    ∷ (0xC2 ∷ 0xA0 ∷ [])
    ∷ (0xE1 ∷ 0x9A ∷ 0x80 ∷ [])
    ∷ (0xE2 ∷ 0x80 ∷ 0x80 ∷ [])
    ∷ (0xE2 ∷ 0x80 ∷ 0x81 ∷ [])
    ∷ (0xE2 ∷ 0x80 ∷ 0x82 ∷ [])
    ∷ (0xE2 ∷ 0x80 ∷ 0x83 ∷ [])
    ∷ (0xE2 ∷ 0x80 ∷ 0x84 ∷ [])
    ∷ (0xE2 ∷ 0x80 ∷ 0x85 ∷ [])
    ∷ (0xE2 ∷ 0x80 ∷ 0x86 ∷ [])
    ∷ (0xE2 ∷ 0x80 ∷ 0x87 ∷ [])
    ∷ (0xE2 ∷ 0x80 ∷ 0x88 ∷ [])
    ∷ (0xE2 ∷ 0x80 ∷ 0x89 ∷ [])
    ∷ (0xE2 ∷ 0x80 ∷ 0x8A ∷ [])
    ∷ (0xE2 ∷ 0x80 ∷ 0xA8 ∷ [])
    ∷ (0xE2 ∷ 0x80 ∷ 0xA9 ∷ [])
    ∷ (0xE2 ∷ 0x80 ∷ 0xAF ∷ [])
    ∷ (0xE2 ∷ 0x81 ∷ 0x9F ∷ [])
    ∷ (0xE3 ∷ 0x80 ∷ 0x80 ∷ [])
    ∷ []

-- The length of the first of the encodings that the text begins with, 0 if there is none.
prefix_width : List Bytes → Bytes → ℕ
unfolding has_prefix
prefix_width [] s = 0
prefix_width (code ∷ encodings) s =
    if has_prefix code s then length code else prefix_width encodings s

-- Drops leading encodings; the number counts the bytes of one that are still to drop.
trim_from : List Bytes → ℕ → Bytes → Bytes
unfolding prefix_width
trim_from encodings k [] = []
trim_from encodings (suc k) (c ∷ s) = trim_from encodings k s
trim_from encodings zero (c ∷ s) = elim (prefix_width encodings (c ∷ s)) [
  | zero ↦ c ∷ s
  | suc w ↦ trim_from encodings w s
]

pub trim_left : Bytes → Bytes
unfolding trim_from
trim_left s = trim_from space_codes 0 s

pub trim_right : Bytes → Bytes
unfolding trim_from
trim_right s = reverse (trim_from (map reverse space_codes) 0 (reverse s))

unfoldable pub trim_space : Bytes → Bytes
unfolding trim_left trim_right
trim_space s = trim_right (trim_left s)

abbrev extend_first : ℕ → List Bytes → List Bytes
extend_first c [] = (c ∷ []) ∷ []
extend_first c (p ∷ ps) = (c ∷ p) ∷ ps

unfoldable pub split : ℕ → Bytes → List Bytes
split sep [] = [] ∷ []
split sep (c ∷ s) = let parts = split sep s in if c == sep then [] ∷ parts else extend_first c parts
