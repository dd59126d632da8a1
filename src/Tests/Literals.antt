-- ===== src/Tests/Literals.antt =====
-- Formatted values at concrete inputs.
use go_sqldb.Prelude.{ℕ, ◌≡◌, refl, some, [], ◌∷◌, Bytes, codes, ◌++◌, ◌+◌}
use go_sqldb.Quoting.{quote_string_literal, read_literal}
use go_sqldb.Value.{string, secret, format_value}
use go_sqldb.Value.Redaction.{hidden, same, no_args, more_args}
use go_sqldb.Value.Literal.{read_literal-format_value_wrapped}
use go_sqldb.Formatter.Substitute.{substitute_placeholders}
use go_sqldb.Formatter.Substitute.Redaction.{substitute_placeholders-AllSameOutside}
use go_sqldb.Formatter.Placeholder.{itoa}
use go_sqldb.Mysql.Formatter.{format_string_literal}
use go_sqldb.Mysql.Literal.{read_string, read_string-format_string_literal}

-- A JSON object with an apostrophe: the rest of it is read as SQL.
read_literal-format_value_wrapped_example :
    read_literal (codes "'{\"a\":\"'; DROP TABLE t --\"}'" ++ codes ")")
    ≡ some (codes "{\"a\":\"", codes "; DROP TABLE t --\"}')")
unfolding format_value quote_string_literal
read_literal-format_value_wrapped_example =
    read_literal-format_value_wrapped (codes "{\"a\":\"") (codes "; DROP TABLE t --\"}") (codes ")")
      {q = codes "'{\"a\":\"'; DROP TABLE t --\"}'"} refl refl refl refl

abbrev dollar : ℕ → Bytes
dollar i = codes "$" ++ itoa (i + 1)

substitute_placeholders-AllSameOutside_example :
    substitute_placeholders dollar
      (codes "UPDATE t SET a=$1, b=$2")
      (string (codes "x") ∷ secret (codes "***") (string (codes "1234")) ∷ [])
    ≡ substitute_placeholders dollar
        (codes "UPDATE t SET a=$1, b=$2")
        (string (codes "x") ∷ secret (codes "***") (string (codes "other")) ∷ [])
substitute_placeholders-AllSameOutside_example =
    substitute_placeholders-AllSameOutside dollar (codes "UPDATE t SET a=$1, b=$2") (
      more_args (same (string (codes "x")))
        (more_args (hidden (codes "***") (string (codes "1234")) (string (codes "other"))) no_args))

read_string-format_string_literal_example :
    read_string (format_string_literal (codes "a\\'b\n") ++ codes ")")
    ≡ some (codes "a\\'b\n", codes ")")
read_string-format_string_literal_example =
    read_string-format_string_literal (codes "a\\'b\n") (codes ")") refl
