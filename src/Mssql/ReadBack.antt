-- ===== src/Mssql/ReadBack.antt =====
-- A lexer of the dialect reads the names that this formatter writes back as they were given.
use go_sqldb.Prelude.{
  List, String, has_word, true, ◌≡◌, refl, ◌||◌, some, ◌++◌, arith, Bytes, ◌==◌, ok,
}
use go_sqldb.Quoting.{Lexer, read_identifier, word_char, StartsWithout}
use go_sqldb.Quoting.Identifier.{IsLexical}
use go_sqldb.Formatter.Names.{cut_dot}
use go_sqldb.Formatter.Quoted.{table_ref, read_table}
use go_sqldb.Formatter.Quoted.ReadBack.{
  Fits, read_identifier-format_column_name, read_table-format_table_name,
}
use go_sqldb.Mssql.Formatter.{dialect, name_regexp, format_table_name, format_column_name}

-- `keywords` are the words that the database reads as no identifier without quotes; the dialect's
-- words hold them. It stores names without quotes in the case they are written in.
module _ (keywords : List String)
    (law : (w : Bytes) → has_word keywords w ≡ true → has_word dialect.words w ≡ true) where
  abbrev pub lexer : Lexer
  lexer = record { open_quote = b'['; close_quote = b']'; fold = λ c. c; keywords = keywords }

  pub dialect-IsLexical : IsLexical dialect lexer
  dialect-IsLexical = record {
    opens_alike = refl;
    closes_alike = refl;
    plain_is_folded = λ c h. refl;
    keyword_is_word = law;
    plain_is_word = λ c h. ground arith;
    quote_begins_none = refl;
  }

  dialect-Fits : Fits dialect lexer name_regexp
  dialect-Fits = record {
    lexical = dialect-IsLexical;
    first_begins = λ c h k. ground arith;
    dot_quotes_none = refl;
  }

  -- A column name that the SQL Server formatter accepts is read by the lexer as one identifier, the
  -- name that was given, if what follows in the query neither is a word character nor the closing
  -- quote.
  pub read_column_mssql :
      (name rest : Bytes) {q : Bytes}
      → format_column_name name ≡ ok q
      → StartsWithout (λ c. word_char c || c == b']') rest
      → read_identifier lexer (q ++ rest) ≡ some (name, rest)
  unfolding format_column_name
  read_column_mssql name rest h w =
      read_identifier-format_column_name dialect lexer name_regexp dialect-Fits name rest h w

  -- A table name that the SQL Server formatter accepts is read by the lexer as the schema and the
  -- table that the dot of the name separates, or as the table alone if there is no dot, if what
  -- follows in the query is no word character, no closing quote and no dot.
  pub read_table_mssql :
      (name rest : Bytes) {q : Bytes}
      → format_table_name name ≡ ok q
      → StartsWithout (λ c. word_char c || c == b']' || c == b'.') rest
      → read_table lexer (q ++ rest) ≡ some (table_ref name (cut_dot name), rest)
  unfolding format_table_name
  read_table_mssql name rest h w =
      read_table-format_table_name dialect lexer name_regexp dialect-Fits name rest h w
