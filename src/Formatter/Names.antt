-- ===== src/Formatter/Names.antt =====
-- The regular expressions for table and column names of the formatters. All have the form
-- `^[first][rest]{0,n}$` and `^([first][rest]{0,n}\.)?[first][rest]{0,n}$`; `matches` decides them.
use go_sqldb.Prelude.{
  ℕ, Bool, true, false, ◌&&◌, [], ◌∷◌, Option, none, some, Bytes, length, leb, ◌==◌, if◌then◌else◌,
  all, ◌≡◌, and_true,
}

pub record NamePattern : Type 0 where
  pub first : ℕ → Bool
  pub rest : ℕ → Bool
  -- the bound `n` of the repetition, none for `*`
  pub bound : Option ℕ

abbrev within : Option ℕ → ℕ → Bool
within none n = true
within (some m) n = leb n m

unfoldable pub matches_name : NamePattern → Bytes → Bool
matches_name p [] = false
matches_name p (c ∷ s) = p.first c && (all p.rest s && within p.bound (length s))

abbrev extend : ℕ → Option (Bytes × Bytes) → Option (Bytes × Bytes)
extend c none = none
extend c (some (a, b)) = some (c ∷ a, b)

-- `strings.Cut(name, ".")`.
pub cut_dot : Bytes → Option (Bytes × Bytes)
cut_dot [] = none
cut_dot (c ∷ s) = let later = cut_dot s in if c == b'.' then some ([], s) else extend c later

matches_parts : NamePattern → Bytes → Option (Bytes × Bytes) → Bool
matches_parts p name none = matches_name p name
matches_parts p name (some (a, b)) = matches_name p a && matches_name p b

unfoldable pub matches_qualified : NamePattern → Bytes → Bool
unfolding matches_name cut_dot matches_parts
matches_qualified p name = matches_parts p name (cut_dot name)

-- What a match of the pattern for tables says of the name's parts.
abbrev pub PartsMatch : NamePattern → Bytes → Option (Bytes × Bytes) → Type 0
PartsMatch p name none = matches_name p name ≡ true
PartsMatch p name (some (a, b)) = (matches_name p a ≡ true) × (matches_name p b ≡ true)

matches_parts-PartsMatch :
    (p : NamePattern) (name : Bytes) (parts : Option (Bytes × Bytes))
    → matches_parts p name parts ≡ true
    → PartsMatch p name parts
unfolding matches_parts
matches_parts-PartsMatch p name none h = h
matches_parts-PartsMatch p name (some (a, b)) h = and_true (matches_name p a) (matches_name p b) h

pub matches_qualified-PartsMatch :
    (p : NamePattern) (name : Bytes)
    → matches_qualified p name ≡ true
    → PartsMatch p name (cut_dot name)
unfolding matches_qualified
matches_qualified-PartsMatch p name h = matches_parts-PartsMatch p name (cut_dot name) h
