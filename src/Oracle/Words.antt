-- ===== src/Oracle/Words.antt =====
-- The reserved words and type names of oraconn/queryformatter.go, which its `EscapeIdentifier` quotes.
use go_sqldb.Prelude.{List, [], ◌∷◌, String}

unfoldable pub reserved_words : List String
reserved_words =
    "access" ∷ "add" ∷ "all" ∷ "alter" ∷ "and" ∷ "any" ∷ "as" ∷ "asc" ∷ "audit" ∷ "between" ∷ "by"
    ∷ "case" ∷ "char" ∷ "check" ∷ "cluster" ∷ "column" ∷ "comment" ∷ "compress" ∷ "connect"
    ∷ "create" ∷ "cross" ∷ "current" ∷ "date" ∷ "decimal" ∷ "default" ∷ "delete" ∷ "desc"
    ∷ "distinct" ∷ "drop" ∷ "else" ∷ "end" ∷ "except" ∷ "exclusive" ∷ "exists" ∷ "false" ∷ "fetch"
    ∷ "file" ∷ "float" ∷ "for" ∷ "from" ∷ "full" ∷ "grant" ∷ "group" ∷ "having" ∷ "identified"
    ∷ "immediate" ∷ "in" ∷ "increment" ∷ "index" ∷ "initial" ∷ "inner" ∷ "insert" ∷ "integer"
    ∷ "intersect" ∷ "into" ∷ "is" ∷ "join" ∷ "left" ∷ "level" ∷ "like" ∷ "lock" ∷ "long"
    ∷ "maxextents" ∷ "merge" ∷ "minus" ∷ "mlslabel" ∷ "mode" ∷ "modify" ∷ "natural" ∷ "noaudit"
    ∷ "nocompress" ∷ "not" ∷ "nowait" ∷ "null" ∷ "number" ∷ "of" ∷ "offline" ∷ "offset" ∷ "on"
    ∷ "online" ∷ "option" ∷ "or" ∷ "order" ∷ "outer" ∷ "pctfree" ∷ "prior" ∷ "public" ∷ "raw"
    ∷ "rename" ∷ "resource" ∷ "returning" ∷ "revoke" ∷ "right" ∷ "row" ∷ "rowid" ∷ "rownum" ∷ "rows"
    ∷ "select" ∷ "session" ∷ "set" ∷ "share" ∷ "size" ∷ "smallint" ∷ "start" ∷ "successful"
    ∷ "synonym" ∷ "sysdate" ∷ "table" ∷ "then" ∷ "to" ∷ "trigger" ∷ "true" ∷ "uid" ∷ "union"
    ∷ "unique" ∷ "update" ∷ "user" ∷ "validate" ∷ "values" ∷ "varchar" ∷ "varchar2" ∷ "view"
    ∷ "whenever" ∷ "where" ∷ "with" ∷ "binary_double" ∷ "binary_float" ∷ "blob" ∷ "boolean" ∷ "clob"
    ∷ "int" ∷ "nchar" ∷ "nclob" ∷ "numeric" ∷ "nvarchar2" ∷ "real" ∷ "timestamp" ∷ "xml" ∷ "xmltype"
    ∷ []
