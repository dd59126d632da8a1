-- ===== src/Formatter/Std.antt =====
-- `StdQueryFormatter` of queryformatter.go: names are checked and not quoted.
pub mod Distinct
use go_sqldb.Prelude.{
  ℕ, ◌+◌, Bool, [], ◌++◌, none, Bytes, codes, bytes_eq, if◌then◌else◌, invalid_table_name,
  invalid_column_name, Result, ok, err,
}
use go_sqldb.Quoting.{quote_string_literal, letter, word_char}
use go_sqldb.Formatter.{QueryFormatter}
use go_sqldb.Formatter.Names.{NamePattern, matches_name, matches_qualified}
use go_sqldb.Formatter.Placeholder.{itoa}
use go_sqldb.Formatter.Substitute.{substitute_placeholders}

pub record StdQueryFormatter : Type 0 where
  pub placeholder_pos_prefix : Bytes
  pub disable_substitute_placeholders : Bool

abbrev pub std_name_regexp : NamePattern
std_name_regexp = record { first = letter; rest = word_char; bound = none }

unfoldable pub format_table_name : Bytes → Result Bytes
format_table_name name =
    if matches_qualified std_name_regexp name then ok name else err (invalid_table_name name)

unfoldable pub format_column_name : Bytes → Result Bytes
format_column_name name =
    if matches_name std_name_regexp name then ok name else err (invalid_column_name name)

unfoldable pub format_placeholder : StdQueryFormatter → ℕ → Bytes
format_placeholder f param_index =
    if bytes_eq f.placeholder_pos_prefix []
    then codes "?"
    else f.placeholder_pos_prefix ++ itoa (param_index + 1)

abbrev pub std_query_formatter : StdQueryFormatter → QueryFormatter
std_query_formatter f = record {
  format_table_name = format_table_name;
  format_column_name = format_column_name;
  format_placeholder = format_placeholder f;
  format_string_literal = quote_string_literal;
  max_args = 65535;
  substitute_placeholders = λ query args.
      if f.disable_substitute_placeholders
      then (query, [])
      else substitute_placeholders (format_placeholder f) query args;
}
