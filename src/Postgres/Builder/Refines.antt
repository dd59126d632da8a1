-- ===== src/Postgres/Builder/Refines.antt =====
-- Upsert of the PostgreSQL builder against the statement that it prints.
use go_sqldb.Prelude.{
  ◌≡◌, not, List, [], ◌∷◌, ◌++◌, map, append_assoc, Bytes, codes, length, join, if◌then◌else◌,
  requires_non_primary_key, Result, ok, err, ◌>>=◌, >>=-assoc, ap,
}
use go_sqldb.Formatter.{QueryFormatter}
use go_sqldb.Builder.{ColumnInfo}
use go_sqldb.Builder.Loops.{write_some-join}
use go_sqldb.Builder.Statement.{insert_into, print, format_names, bind_from, assignment}
use go_sqldb.Builder.Std.{has_non_pk}
use go_sqldb.Builder.Std.Refines.{insert-print, names, row_placeholders}
use go_sqldb.Builder.Upsert.{
  pick, is_key, is_not_key, bind_cong, traverse-pick, traverse-pick_plain,
}
use go_sqldb.Postgres.Builder.{upsert}

-- The INSERT of all columns, the key columns as the conflict target, and an assignment for each
-- other column.
abbrev pub upsert_text : QueryFormatter → Bytes → List ColumnInfo → List Bytes → Bytes
upsert_text f t columns ns =
    print (insert_into t ns (row_placeholders f (length columns) 0 ∷ []))
    ++ (codes " ON CONFLICT ("
        ++ (join (codes ",") (pick is_key columns ns)
            ++ (codes ") DO UPDATE SET"
                ++ join (codes ",") (map assignment (pick is_not_key columns (bind_from f 0 ns))))))

-- Upsert refuses columns that are all keys. Otherwise it fails only where Insert does, and it
-- prints Insert's statement with the formatted key columns as conflict target; each other column
-- is assigned the placeholder of the value that the INSERT has for it.
pub upsert-print_postgres :
    (f : QueryFormatter) (table : Bytes) (columns : List ColumnInfo)
    → upsert f table columns ≡ (
        if not (has_non_pk columns)
        then err requires_non_primary_key
        else f.format_table_name table >>= λ t.
            format_names f (names columns) >>= λ ns. ok (upsert_text f t columns ns))
unfolding upsert
upsert-print_postgres f table columns =
    simp (insert-print f, >>=-assoc, write_some-join)
      (ap
        (λ (r : Result Bytes). if not (has_non_pk columns) then err requires_non_primary_key else r)
        (bind_cong (f.format_table_name table) _ _ λ t _.
          bind_cong (format_names f (names columns)) _ _ λ ns e. simp (
            traverse-pick_plain f is_key 0 0 columns ns e,
            traverse-pick f is_not_key assignment 0 0 columns ns e,
            append_assoc,
          )))
