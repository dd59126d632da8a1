-- ===== src/Builder/Statement.antt =====
-- SQL statements as data, and their text. This is what the builders' loops are compared with.
use go_sqldb.Prelude.{ℕ, ◌+◌, List, [], ◌∷◌, ◌++◌, map, Bytes, codes, join, Result, ok, ◌>>=◌}
use go_sqldb.Formatter.{QueryFormatter}

-- A column's formatted name and the placeholder that is bound for it.
abbrev pub Binding : Type 0
Binding = Bytes × Bytes

pub data Statement : Type 0 where
  select_by : Bytes → List Binding → Statement
  insert_into : Bytes → List Bytes → List (List Bytes) → Statement
  update_where : Bytes → List Binding → Bytes → Statement
  delete_by : Bytes → List Binding → Statement

-- `name = placeholder`, and ` name=placeholder` behind SET.
abbrev pub condition : Binding → Bytes
condition (column, placeholder) = column ++ (codes " = " ++ placeholder)

abbrev pub assignment : Binding → Bytes
assignment (column, placeholder) = codes " " ++ (column ++ (codes "=" ++ placeholder))

abbrev pub conjunction : List Binding → Bytes
conjunction bindings = join (codes " AND ") (map condition bindings)

abbrev pub assignments : List Binding → Bytes
assignments bindings = join (codes ",") (map assignment bindings)

abbrev pub tuple : List Bytes → Bytes
tuple items = codes "(" ++ (join (codes ",") items ++ codes ")")

unfoldable pub print : Statement → Bytes
print (select_by table keys) =
    codes "SELECT * FROM " ++ (table ++ (codes " WHERE " ++ conjunction keys))
print (insert_into table columns rows) =
    codes "INSERT INTO "
    ++ (table ++ (tuple columns ++ (codes " VALUES" ++ join (codes ",") (map tuple rows))))
print (update_where table sets where_condition) =
    codes "UPDATE "
    ++ (table ++ (codes " SET" ++ (assignments sets ++ (codes " WHERE " ++ where_condition))))
print (delete_by table keys) =
    codes "DELETE FROM " ++ (table ++ (codes " WHERE " ++ conjunction keys))

-- The formatted names, or the first error.
abbrev pub format_names : QueryFormatter → List Bytes → Result (List Bytes)
format_names f [] = ok []
format_names f (name ∷ names) = do
  column ← f.format_column_name name
  columns ← format_names f names
  ok (column ∷ columns)

-- Each column with a placeholder of its own, numbered on from `i`.
abbrev pub bind_from : QueryFormatter → ℕ → List Bytes → List Binding
bind_from f i [] = []
bind_from f i (column ∷ columns) = (column, f.format_placeholder i) ∷ bind_from f (i + 1) columns
