-- ===== src/Postgres/ReadBack.antt =====
-- A lexer of PostgreSQL reads the names that this formatter writes back as they were given. The lexer
-- is described from the documentation of PostgreSQL, not from pqconn/queryformatter.go.
use go_sqldb.Prelude.{
  ◌≡◌, refl, ◌||◌, some, ◌++◌, arith, Bytes, ◌==◌, ok, List, String, ◌∷◌, [], true,
}
use go_sqldb.Quoting.{read_identifier, word_char, StartsWithout, Lexer, lower}
use go_sqldb.Quoting.Identifier.{IsLexical, contained, contained-has_word}
use go_sqldb.Formatter.Quoted.ReadBack.{Fits, read_identifier-format_column_name}
use go_sqldb.Postgres.Formatter.{dialect, name_regexp, format_column_name}

-- The key words of the SQL standard's and PostgreSQL's table of them that PostgreSQL reserves, or
-- reserves but for names of functions and types.
abbrev keywords : List String
keywords =
    "all" ∷ "analyse" ∷ "analyze" ∷ "and" ∷ "any" ∷ "array" ∷ "as" ∷ "asc" ∷ "asymmetric"
    ∷ "authorization" ∷ "binary" ∷ "both" ∷ "case" ∷ "cast" ∷ "check" ∷ "collate" ∷ "collation"
    ∷ "column" ∷ "concurrently" ∷ "constraint" ∷ "create" ∷ "cross" ∷ "current_catalog"
    ∷ "current_date" ∷ "current_role" ∷ "current_schema" ∷ "current_time" ∷ "current_timestamp"
    ∷ "current_user" ∷ "default" ∷ "deferrable" ∷ "desc" ∷ "distinct" ∷ "do" ∷ "else" ∷ "end"
    ∷ "except" ∷ "false" ∷ "fetch" ∷ "for" ∷ "foreign" ∷ "freeze" ∷ "from" ∷ "full" ∷ "grant"
    ∷ "group" ∷ "having" ∷ "ilike" ∷ "in" ∷ "initially" ∷ "inner" ∷ "intersect" ∷ "into" ∷ "is"
    ∷ "isnull" ∷ "join" ∷ "lateral" ∷ "leading" ∷ "left" ∷ "like" ∷ "limit" ∷ "localtime"
    ∷ "localtimestamp" ∷ "natural" ∷ "not" ∷ "notnull" ∷ "null" ∷ "offset" ∷ "on" ∷ "only" ∷ "or"
    ∷ "order" ∷ "outer" ∷ "overlaps" ∷ "placing" ∷ "primary" ∷ "references" ∷ "returning" ∷ "right"
    ∷ "select" ∷ "session_user" ∷ "similar" ∷ "some" ∷ "symmetric" ∷ "table" ∷ "tablesample"
    ∷ "then" ∷ "to" ∷ "trailing" ∷ "true" ∷ "union" ∷ "unique" ∷ "user" ∷ "using" ∷ "variadic"
    ∷ "verbose" ∷ "when" ∷ "where" ∷ "window" ∷ "with" ∷ []

-- PostgreSQL stores the letters of a name without quotes in lower case.
abbrev pub lexer : Lexer
lexer = record { open_quote = b'"'; close_quote = b'"'; fold = lower; keywords = keywords }

keywords-contained : contained keywords dialect.words ≡ true
unfolding contained go_sqldb.Postgres.Words.reserved_words go_sqldb.Prelude.has_word
    go_sqldb.Prelude.bytes_eq
keywords-contained = refl

pub dialect-IsLexical : IsLexical dialect lexer
dialect-IsLexical = record {
  opens_alike = refl;
  closes_alike = refl;
  plain_is_word = λ c h. ground arith;
  plain_is_folded = λ c h. ground arith;
  keyword_is_word = λ w. contained-has_word keywords dialect.words w keywords-contained;
  quote_begins_none = refl;
}

dialect-Fits : Fits dialect lexer name_regexp
dialect-Fits = record {
  lexical = dialect-IsLexical;
  first_begins = λ c h k. ground arith;
  dot_quotes_none = refl;
}

-- A column name that the PostgreSQL formatter accepts is read by the lexer as one identifier, the name
-- that was given, if what follows in the query neither is a word character nor the closing quote.
pub read_column_postgres :
    (name rest : Bytes) {q : Bytes}
    → format_column_name name ≡ ok q
    → StartsWithout (λ c. word_char c || c == b'"') rest
    → read_identifier lexer (q ++ rest) ≡ some (name, rest)
unfolding format_column_name
read_column_postgres name rest h w =
    read_identifier-format_column_name dialect lexer name_regexp dialect-Fits name rest h w
