-- ===== src/Sqlite/Builder/Refines.antt =====
-- Upsert of the SQLite builder against the statement that it prints.
use go_sqldb.Prelude.{
  ◌≡◌, ap, not, List, [], ◌∷◌, ◌++◌, map, append_assoc, Bytes, codes, length, join, if◌then◌else◌,
  requires_non_primary_key, Result, ok, err, ◌>>=◌, >>=-assoc,
}
use go_sqldb.Formatter.{QueryFormatter}
use go_sqldb.Builder.{ColumnInfo}
use go_sqldb.Builder.Loops.{write_some-join}
use go_sqldb.Builder.Statement.{insert_into, print, format_names}
use go_sqldb.Builder.Std.{has_non_pk}
use go_sqldb.Builder.Std.Refines.{insert-print, names, row_placeholders}
use go_sqldb.Builder.Upsert.{
  pick, is_key, is_not_key, bind_cong, traverse-pick_names, traverse-pick_plain,
}
use go_sqldb.Sqlite.Builder.{upsert, excluded}

abbrev pub upsert_text : QueryFormatter → Bytes → List ColumnInfo → List Bytes → Bytes
upsert_text f t columns ns =
    print (insert_into t ns (row_placeholders f (length columns) 0 ∷ []))
    ++ (codes " ON CONFLICT("
        ++ (join (codes ",") (pick is_key columns ns)
            ++ (codes ") DO UPDATE SET"
                ++ join (codes ",") (map excluded (pick is_not_key columns ns)))))

-- Upsert refuses columns that are all keys. Otherwise it fails only where Insert does, and it
-- prints Insert's statement with the formatted key columns as conflict target; each other column
-- is assigned the excluded row's value of the same column.
pub upsert-print_sqlite :
    (f : QueryFormatter) (table : Bytes) (columns : List ColumnInfo)
    → upsert f table columns ≡ (
        if not (has_non_pk columns)
        then err requires_non_primary_key
        else f.format_table_name table >>= λ t.
            format_names f (names columns) >>= λ ns. ok (upsert_text f t columns ns))
unfolding upsert
upsert-print_sqlite f table columns =
    simp (insert-print f, >>=-assoc, write_some-join)
      (ap
        (λ (r : Result Bytes). if not (has_non_pk columns) then err requires_non_primary_key else r)
        (bind_cong (f.format_table_name table) _ _ λ t _.
          bind_cong (format_names f (names columns)) _ _ λ ns e. simp (
            traverse-pick_plain f is_key 0 0 columns ns e,
            traverse-pick_names f is_not_key excluded 0 0 columns ns e,
            append_assoc,
          )))
