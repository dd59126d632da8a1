-- ===== src/Value/Literal.antt =====
-- Which texts a lexer reads back from `FormatValue`.
use go_sqldb.Prelude.{
  ◌≡◌, true, false, not, [], ◌∷◌, ◌++◌, some, append_assoc, arith, Bytes, ◌==◌, all, ok,
}
use go_sqldb.Quoting.{quote_string_literal, read_literal, StartsWithout}
use go_sqldb.Quoting.ReadBack.{read_literal-quote_string_literal, read_literal-unescaped}
use go_sqldb.Value.{string, format_value, is_wrapped}

-- A string is formatted as a literal that a SQL lexer reads back, whatever it holds, if it is not
-- wrapped in braces or brackets.
pub read_literal-format_value :
    (s rest : Bytes) {q : Bytes}
    → is_wrapped s ≡ false
    → format_value (string s) ≡ ok q
    → StartsWithout (λ c. c == b'\'') rest
    → read_literal (q ++ rest) ≡ some (s, rest)
unfolding format_value
read_literal-format_value s rest {q} plain h w =
    rw (← written) (read_literal-quote_string_literal s rest w)
  where
    written : quote_string_literal s ≡ q
    written = ground arith

-- A string that is wrapped in braces or brackets is not escaped: with a lone single quote behind a
-- part `a` that has none, the lexer ends the literal there, and reads `a` only.
pub read_literal-format_value_wrapped :
    (a b rest : Bytes) {q : Bytes}
    → is_wrapped (a ++ b'\'' ∷ b) ≡ true
    → all (λ c. not (c == b'\'')) a ≡ true
    → StartsWithout (λ c. c == b'\'') (b ++ b'\'' ∷ rest)
    → format_value (string (a ++ b'\'' ∷ b)) ≡ ok q
    → read_literal (q ++ rest) ≡ some (a, b ++ b'\'' ∷ rest)
unfolding format_value
read_literal-format_value_wrapped a b rest {q} wrapped lacks w h =
    rw (← written, append_assoc, append_assoc)
      (read_literal-unescaped a (b ++ b'\'' ∷ rest) lacks w)
  where
    written : b'\'' ∷ ((a ++ b'\'' ∷ b) ++ b'\'' ∷ []) ≡ q
    written = ground arith
