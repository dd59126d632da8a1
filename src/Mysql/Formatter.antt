-- ===== src/Mysql/Formatter.antt =====
-- The `QueryFormatter` of mysqlconn/queryformatter.go.
use go_sqldb.Prelude.{
  ℕ, ◌&&◌, ◌||◌, ◌∷◌, ◌++◌, some, Bytes, codes, leb, ◌==◌, Result, if◌then◌else◌, [],
}
use go_sqldb.Quoting.{Dialect}
use go_sqldb.Formatter.{QueryFormatter}
use go_sqldb.Formatter.Names.{NamePattern}
use go_sqldb.Formatter.Quoted
use go_sqldb.Formatter.Substitute.{substitute_placeholders}
use go_sqldb.Mysql.Words.{reserved_words}

-- `EscapeIdentifier` is `Quoting.escape_identifier` at this dialect.
abbrev pub dialect : Dialect
dialect = record {
  open_quote = b'`';
  close_quote = b'`';
  plain = λ r. leb b'a' r && leb r b'z' || r == b'_';
  words = reserved_words;
}

abbrev pub name_regexp : NamePattern
name_regexp = record {
  first = λ c.
      leb b'0' c && leb c b'9'
      || leb b'a' c && leb c b'z'
      || leb b'A' c && leb c b'Z'
      || c == b'$'
      || c == b'_';
  rest = λ c.
      leb b'0' c && leb c b'9'
      || leb b'a' c && leb c b'z'
      || leb b'A' c && leb c b'Z'
      || c == b'$'
      || c == b'_';
  bound = some 63;
}

unfoldable pub format_table_name : Bytes → Result Bytes
format_table_name name = Quoted.format_table_name dialect name_regexp name

unfoldable pub format_column_name : Bytes → Result Bytes
format_column_name name = Quoted.format_column_name dialect name_regexp name

unfoldable pub format_placeholder : ℕ → Bytes
format_placeholder param_index = codes "?"

-- The bytes that the loop of `FormatStringLiteral` writes for one byte.
unfoldable pub escape_byte : ℕ → Bytes
escape_byte c =
    if c == 0
    then codes "\\0"
    else if c == b'\n'
    then codes "\\n"
    else if c == b'\r'
    then codes "\\r"
    else if c == 0x1a
    then codes "\\Z"
    else if c == b'\''
    then codes "\\'"
    else if c == b'"'
    then codes "\\\""
    else if c == b'\\'
    then codes "\\\\"
    else c ∷ []

unfoldable pub escape_bytes : Bytes → Bytes
unfolding escape_byte
escape_bytes [] = []
escape_bytes (c ∷ s) = escape_byte c ++ escape_bytes s

unfoldable pub format_string_literal : Bytes → Bytes
unfolding escape_bytes
format_string_literal str = b'\'' ∷ (escape_bytes str ++ b'\'' ∷ [])

abbrev pub query_formatter : QueryFormatter
query_formatter = record {
  format_table_name = format_table_name;
  format_column_name = format_column_name;
  format_placeholder = format_placeholder;
  format_string_literal = format_string_literal;
  max_args = 65535;
  substitute_placeholders = substitute_placeholders format_placeholder;
}
