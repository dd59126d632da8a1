-- ===== src/Postgres/Formatter.antt =====
-- The `QueryFormatter` of pqconn/queryformatter.go. `pq.QuoteLiteral` of lib/pq is
-- a parameter.
use go_sqldb.Prelude.{ℕ, ◌+◌, ◌&&◌, ◌||◌, ◌++◌, some, Bytes, codes, leb, ◌==◌, Result}
use go_sqldb.Quoting.{Dialect, letter, word_char}
use go_sqldb.Formatter.{QueryFormatter}
use go_sqldb.Formatter.Names.{NamePattern}
use go_sqldb.Formatter.Placeholder.{itoa}
use go_sqldb.Formatter.Quoted
use go_sqldb.Formatter.Substitute.{substitute_placeholders}
use go_sqldb.Postgres.Words.{reserved_words}

-- `EscapeIdentifier` is `Quoting.escape_identifier` at this dialect.
abbrev pub dialect : Dialect
dialect = record {
  open_quote = b'"';
  close_quote = b'"';
  plain = λ r. leb b'a' r && leb r b'z' || r == b'_';
  words = reserved_words;
}

abbrev pub name_regexp : NamePattern
name_regexp = record { first = letter; rest = word_char; bound = some 62 }

unfoldable pub format_table_name : Bytes → Result Bytes
format_table_name name = Quoted.format_table_name dialect name_regexp name

unfoldable pub format_column_name : Bytes → Result Bytes
format_column_name name = Quoted.format_column_name dialect name_regexp name

unfoldable pub format_placeholder : ℕ → Bytes
format_placeholder param_index = codes "$" ++ itoa (param_index + 1)

abbrev pub query_formatter : (Bytes → Bytes) → QueryFormatter
query_formatter quote_literal = record {
  format_table_name = format_table_name;
  format_column_name = format_column_name;
  format_placeholder = format_placeholder;
  format_string_literal = quote_literal;
  max_args = 65535;
  substitute_placeholders = substitute_placeholders format_placeholder;
}
