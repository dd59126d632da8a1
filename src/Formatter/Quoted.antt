-- ===== src/Formatter/Quoted.antt =====
-- `FormatTableName` and `FormatColumnName` as the formatters of pqconn, mysqlconn, mssqlconn and
-- oraconn write them: the name is checked against a regular expression, cut at its dot, and each
-- part is escaped. `read_table` is the side of the lexer, which
-- reads the text.
pub mod ReadBack
use go_sqldb.Prelude.{
  Bool, true, false, [], ◌∷◌, ◌++◌, Option, none, some, Bytes, ◌==◌, if◌then◌else◌, Error,
  invalid_table_name, invalid_column_name, Result, ok, err,
}
use go_sqldb.Quoting.{Lexer, Dialect, escape_identifier, read_identifier}
use go_sqldb.Formatter.Names.{NamePattern, matches_name, matches_qualified, cut_dot}

abbrev escape_parts : Dialect → Bytes → Option (Bytes × Bytes) → Bytes
escape_parts d name none = escape_identifier d name
escape_parts d name (some (schema, table)) =
    escape_identifier d schema ++ b'.' ∷ escape_identifier d table

unfoldable pub format_table_name : Dialect → NamePattern → Bytes → Result Bytes
format_table_name d p name =
    if matches_qualified p name
    then ok (escape_parts d name (cut_dot name))
    else err (invalid_table_name name)

unfoldable pub format_column_name : Dialect → NamePattern → Bytes → Result Bytes
format_column_name d p name =
    if matches_name p name then ok (escape_identifier d name) else err (invalid_column_name name)

-- An optional schema and a table.
abbrev pub TableRef : Type 0
TableRef = Option Bytes × Bytes

abbrev pub table_ref : Bytes → Option (Bytes × Bytes) → TableRef
table_ref name none = (none, name)
table_ref name (some (schema, table)) = (some schema, table)

abbrev second_part : Bytes → Option (Bytes × Bytes) → Option (TableRef × Bytes)
second_part schema none = none
second_part schema (some (table, rest)) = some ((some schema, table), rest)

read_second : Lexer → Bytes → Bytes → Option (TableRef × Bytes)
read_second l a [] = some ((none, a), [])
read_second l a (c ∷ s) =
    if c == b'.' then second_part a (read_identifier l s) else some ((none, a), c ∷ s)

abbrev first_part : Lexer → Option (Bytes × Bytes) → Option (TableRef × Bytes)
first_part l none = none
first_part l (some (a, rest)) = read_second l a rest

-- One identifier, or two with a dot between them.
pub read_table : Lexer → Bytes → Option (TableRef × Bytes)
unfolding read_second
read_table l s = first_part l (read_identifier l s)
