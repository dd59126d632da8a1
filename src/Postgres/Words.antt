-- ===== src/Postgres/Words.antt =====
-- The reserved words and type names of pqconn/queryformatter.go, which its `EscapeIdentifier` quotes.
use go_sqldb.Prelude.{List, [], ◌∷◌, String}

unfoldable pub reserved_words : List String
reserved_words =
    "all" ∷ "analyse" ∷ "analyze" ∷ "and" ∷ "any" ∷ "array" ∷ "as" ∷ "asc" ∷ "asymmetric"
    ∷ "authorization" ∷ "between" ∷ "binary" ∷ "both" ∷ "case" ∷ "cast" ∷ "check" ∷ "collate"
    ∷ "collation" ∷ "column" ∷ "concurrently" ∷ "constraint" ∷ "create" ∷ "cross"
    ∷ "current_catalog" ∷ "current_date" ∷ "current_role" ∷ "current_schema" ∷ "current_time"
    ∷ "current_timestamp" ∷ "current_user" ∷ "default" ∷ "deferrable" ∷ "desc" ∷ "distinct" ∷ "do"
    ∷ "else" ∷ "end" ∷ "except" ∷ "false" ∷ "fetch" ∷ "for" ∷ "foreign" ∷ "freeze" ∷ "from" ∷ "full"
    ∷ "grant" ∷ "group" ∷ "having" ∷ "ilike" ∷ "in" ∷ "initially" ∷ "inner" ∷ "intersect" ∷ "into"
    ∷ "is" ∷ "isnull" ∷ "join" ∷ "lateral" ∷ "leading" ∷ "left" ∷ "like" ∷ "limit" ∷ "localtime"
    ∷ "localtimestamp" ∷ "natural" ∷ "not" ∷ "notnull" ∷ "null" ∷ "offset" ∷ "on" ∷ "only" ∷ "or"
    ∷ "order" ∷ "outer" ∷ "overlaps" ∷ "placing" ∷ "primary" ∷ "references" ∷ "returning" ∷ "right"
    ∷ "select" ∷ "session_user" ∷ "similar" ∷ "some" ∷ "symmetric" ∷ "table" ∷ "tablesample"
    ∷ "then" ∷ "to" ∷ "trailing" ∷ "true" ∷ "union" ∷ "unique" ∷ "user" ∷ "using" ∷ "variadic"
    ∷ "verbose" ∷ "when" ∷ "where" ∷ "window" ∷ "with" ∷ "anyelement" ∷ "bigint" ∷ "bigserial"
    ∷ "bit" ∷ "bool" ∷ "boolean" ∷ "box" ∷ "bytea" ∷ "char" ∷ "character" ∷ "cidr" ∷ "circle"
    ∷ "date" ∷ "daterange" ∷ "decimal" ∷ "double" ∷ "float4" ∷ "float8" ∷ "inet" ∷ "int" ∷ "int2"
    ∷ "int4" ∷ "int4range" ∷ "int8" ∷ "int8range" ∷ "integer" ∷ "interval" ∷ "json" ∷ "jsonb"
    ∷ "line" ∷ "lseg" ∷ "macaddr" ∷ "macaddr8" ∷ "money" ∷ "numeric" ∷ "numrange" ∷ "path" ∷ "point"
    ∷ "polygon" ∷ "real" ∷ "serial" ∷ "serial2" ∷ "serial4" ∷ "serial8" ∷ "smallint" ∷ "smallserial"
    ∷ "text" ∷ "timestamp" ∷ "timestamptz" ∷ "timetz" ∷ "tsquery" ∷ "tsrange" ∷ "tstzrange"
    ∷ "tsvector" ∷ "uuid" ∷ "varchar" ∷ "varying" ∷ "void" ∷ "xml" ∷ []
