-- ===== src/Formatter/Quoted/ReadBack.antt =====
-- A lexer reads a formatted name back as the name that was given.
use go_sqldb.Prelude.{
  ℕ, ◌≡◌, refl, true, false, ◌||◌, Bool-cases, and_true, inl, inr, [], ◌∷◌, ◌++◌, Option, none,
  some, append_assoc, arith, Bytes, ◌==◌, ok,
}
use go_sqldb.Quoting.{
  Lexer, Dialect, escape_identifier, read_identifier, letter, word_char, StartsWithout,
}
use go_sqldb.Quoting.Identifier.{IsLexical, BeginsWell, read_identifier-escape_identifier}
use go_sqldb.Formatter.Names.{
  NamePattern, matches_name, matches_qualified, cut_dot, PartsMatch, matches_qualified-PartsMatch,
}
use go_sqldb.Formatter.Quoted.{
  escape_parts, format_table_name, format_column_name, table_ref, read_second, read_table,
}

-- What a name pattern owes the dialect and its lexer: no name begins with a character that is plain and is no
-- letter. `dot_quotes_none`: the dot is no closing quote.
pub record Fits (d : Dialect) (l : Lexer) (p : NamePattern) : Type 0 where
  pub lexical : IsLexical d l
  pub first_begins : (c : ℕ) → p.first c ≡ true → d.plain c ≡ true → letter c ≡ true
  pub dot_quotes_none : (b'.' == d.close_quote) ≡ false

matches_name-BeginsWell :
    (d : Dialect) (l : Lexer) (p : NamePattern) (f : Fits d l p) (name : Bytes)
    → matches_name p name ≡ true
    → BeginsWell d name
unfolding matches_name
matches_name-BeginsWell d l p f [] h = cc
matches_name-BeginsWell d l p f (c ∷ s) h = f.first_begins c (and_true (p.first c) _ h).0

module _ (d : Dialect) (l : Lexer) (p : NamePattern) (f : Fits d l p) where
  -- What may follow a formatted column name.
  read_escaped :
      (name rest : Bytes)
      → matches_name p name ≡ true
      → StartsWithout (λ c. word_char c || c == d.close_quote) rest
      → read_identifier l (escape_identifier d name ++ rest) ≡ some (name, rest)
  read_escaped name rest h w =
      read_identifier-escape_identifier d l name rest f.lexical
        (matches_name-BeginsWell d l p f name h) w

  pub read_identifier-format_column_name :
      (name rest : Bytes) {q : Bytes}
      → format_column_name d p name ≡ ok q
      → StartsWithout (λ c. word_char c || c == d.close_quote) rest
      → read_identifier l (q ++ rest) ≡ some (name, rest)
  unfolding format_column_name
  read_identifier-format_column_name name rest {q} h w = elim (Bool-cases (matches_name p name)) [
    | inl m ↦ rw (← escaped m) (read_escaped name rest m w)
    | inr m ↦ absurd (refused m)
  ]
    where
      escaped : matches_name p name ≡ true → escape_identifier d name ≡ q
      escaped m = ground arith

      refused : matches_name p name ≡ false → ⊥
      refused m = ground arith

  read_second_end :
      (a rest : Bytes)
      → StartsWithout (λ c. word_char c || c == d.close_quote || c == b'.') rest
      → read_second l a rest ≡ some ((none, a), rest)
  unfolding read_second
  read_second_end a [] w = refl
  read_second_end a (c ∷ s) w = ground arith

  read_second_dot :
      (a s b rest : Bytes)
      → read_identifier l s ≡ some (b, rest)
      → read_second l a (b'.' ∷ s) ≡ some ((some a, b), rest)
  unfolding read_second
  read_second_dot a s b rest e = rw e

  weaken :
      (rest : Bytes)
      → StartsWithout (λ c. word_char c || c == d.close_quote || c == b'.') rest
      → StartsWithout (λ c. word_char c || c == d.close_quote) rest
  weaken [] w = tt
  weaken (c ∷ s) w = ground arith

  read_table-escape_parts :
      (name rest : Bytes) (parts : Option (Bytes × Bytes))
      → PartsMatch p name parts
      → StartsWithout (λ c. word_char c || c == d.close_quote || c == b'.') rest
      → read_table l (escape_parts d name parts ++ rest) ≡ some (table_ref name parts, rest)
  unfolding read_table
  read_table-escape_parts name rest none m w =
      rw (read_escaped name rest m (weaken rest w)) (read_second_end name rest w)
  read_table-escape_parts name rest (some (a, b)) m w =
      rw
        (
          append_assoc,
          read_escaped a (b'.' ∷ (escape_identifier d b ++ rest)) m.0 (f.dot_quotes_none),
        )
        (read_second_dot a (escape_identifier d b ++ rest) b rest
          (read_escaped b rest m.1 (weaken rest w)))

  pub read_table-format_table_name :
      (name rest : Bytes) {q : Bytes}
      → format_table_name d p name ≡ ok q
      → StartsWithout (λ c. word_char c || c == d.close_quote || c == b'.') rest
      → read_table l (q ++ rest) ≡ some (table_ref name (cut_dot name), rest)
  unfolding format_table_name
  read_table-format_table_name name rest {q} h w = elim (Bool-cases (matches_qualified p name)) [
    | inl m ↦
        rw (← escaped m) (
          read_table-escape_parts name rest (cut_dot name) (matches_qualified-PartsMatch p name m)
            w)
    | inr m ↦ absurd (refused m)
  ]
    where
      escaped : matches_qualified p name ≡ true → escape_parts d name (cut_dot name) ≡ q
      escaped m = ground arith

      refused : matches_qualified p name ≡ false → ⊥
      refused m = ground arith
