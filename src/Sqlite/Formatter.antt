-- ===== src/Sqlite/Formatter.antt =====
-- The `QueryFormatter` of sqliteconn/queryformatter.go, which quotes every identifier.
use go_sqldb.Prelude.{
  ℕ, ◌+◌, [], ◌∷◌, ◌++◌, Option, none, some, Bytes, codes, if◌then◌else◌, invalid_table_name,
  invalid_column_name, Result, ok, err,
}
use go_sqldb.Quoting.{double, quote_string_literal, letter, word_char}
use go_sqldb.Formatter.{QueryFormatter}
use go_sqldb.Formatter.Names.{NamePattern, matches_name, matches_qualified, cut_dot}
use go_sqldb.Formatter.Placeholder.{itoa}
use go_sqldb.Formatter.Substitute.{substitute_placeholders}

unfoldable pub escape_identifier : Bytes → Bytes
escape_identifier ident = b'"' ∷ (double b'"' ident ++ b'"' ∷ [])

abbrev pub name_regexp : NamePattern
name_regexp = record { first = letter; rest = word_char; bound = some 127 }

abbrev escape_parts : Bytes → Option (Bytes × Bytes) → Bytes
escape_parts name none = escape_identifier name
escape_parts name (some (schema, table)) =
    escape_identifier schema ++ b'.' ∷ escape_identifier table

unfoldable pub format_table_name : Bytes → Result Bytes
format_table_name name =
    if matches_qualified name_regexp name
    then ok (escape_parts name (cut_dot name))
    else err (invalid_table_name name)

unfoldable pub format_column_name : Bytes → Result Bytes
format_column_name name =
    if matches_name name_regexp name
    then ok (escape_identifier name)
    else err (invalid_column_name name)

unfoldable pub format_placeholder : ℕ → Bytes
format_placeholder param_index = codes "?" ++ itoa (param_index + 1)

abbrev pub query_formatter : QueryFormatter
query_formatter = record {
  format_table_name = format_table_name;
  format_column_name = format_column_name;
  format_placeholder = format_placeholder;
  format_string_literal = quote_string_literal;
  max_args = 32766;
  substitute_placeholders = substitute_placeholders format_placeholder;
}
