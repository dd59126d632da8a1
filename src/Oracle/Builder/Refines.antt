-- ===== src/Oracle/Builder/Refines.antt =====
-- The MERGE statement of the Oracle builder.
use mathlib.Core.List.{map-id}
use go_sqldb.Prelude.{
  ◌≡◌, Bool, true, false, List, [], ◌++◌, map, append_assoc, append-nil, Bytes, codes, join, ok,
  ◌>>=◌, >>=-assoc,
}
use go_sqldb.Formatter.{QueryFormatter}
use go_sqldb.Builder.{ColumnInfo}
use go_sqldb.Builder.Loops.{write_some-join, write_each-join}
use go_sqldb.Builder.Statement.{format_names, bind_from}
use go_sqldb.Builder.Bindings.{traverse-names, traverse-bind, map-bind_from}
use go_sqldb.Builder.Std.Refines.{names}
use go_sqldb.Builder.Upsert.{pick, is_not_key, bind_cong, traverse-pick_names}
use go_sqldb.Oracle.Builder.{build_merge, write_matched, matched, source_column, selected}

abbrev update_clause : List ColumnInfo → Bool → List Bytes → Bytes
update_clause columns false ns = []
update_clause columns true ns =
    codes " WHEN MATCHED THEN UPDATE SET"
    ++ join (codes ",") (map (λ n. codes " " ++ matched n) (pick is_not_key columns ns))

-- The statement with the formatted names `ns` of the columns and `ks` of the merge keys.
abbrev pub merge_text :
    QueryFormatter → Bytes → List ColumnInfo → Bool → List Bytes → List Bytes → Bytes
merge_text f t columns with_update ns ks =
    codes "MERGE INTO "
    ++ (t
        ++ (codes " target USING (SELECT "
            ++ (join (codes ", ") (map selected (bind_from f 0 ns))
                ++ codes " FROM DUAL) source ON (")
            ++ (join (codes " AND ") (map matched ks)
                ++ (codes ")"
                    ++ (update_clause columns with_update ns
                        ++ (codes " WHEN NOT MATCHED THEN INSERT ("
                            ++ (join (codes ",") ns
                                ++ (codes ") VALUES ("
                                    ++ (join (codes ",") (map source_column ns)
                                        ++ codes ")")))))))))

-- The update clause, where all names of the columns can be formatted.
write_matched-clause :
    (f : QueryFormatter) (columns : List ColumnInfo) (with_update : Bool) (q : Bytes)
    (ns : List Bytes)
    → format_names f (names columns) ≡ ok ns
    → write_matched f columns with_update q ≡ ok (q ++ update_clause columns with_update ns)
unfolding write_matched
write_matched-clause f columns false q ns e = rw append-nil
write_matched-clause f columns true q ns e = simp (
  write_some-join,
  >>=-assoc,
  append_assoc,
  traverse-pick_names f is_not_key (λ n. codes " " ++ matched n) 0 0 columns ns e,
)

-- The merge fails where the table, a column or a merge key has a name that the formatter refuses,
-- in this order. Otherwise it prints one MERGE statement: the source row has the placeholders of
-- the columns in their order, rows match on all merge keys, the clause for a match stands there
-- just if `with_update` holds and assigns every column that is no key, and a row without a match
-- is inserted with all columns.
pub build_merge-print_oracle :
    (f : QueryFormatter) (table : Bytes) (columns : List ColumnInfo) (conflict_cols : List Bytes)
    (with_update : Bool)
    → build_merge f table columns conflict_cols with_update ≡ (
        f.format_table_name table >>= λ t. format_names f (names columns) >>= λ ns.
        format_names f conflict_cols >>= λ ks. ok (merge_text f t columns with_update ns ks))
unfolding build_merge
build_merge-print_oracle f table columns conflict_cols with_update =
    simp
      (
        write_each-join,
        traverse-names f (λ (c : ColumnInfo). c.name),
        >>=-assoc,
        traverse-bind f (λ (c : ColumnInfo). c.name) selected,
        traverse-bind f (λ (n : Bytes). n) (λ b. matched b.0),
        traverse-bind f (λ (c : ColumnInfo). c.name) (λ b. source_column b.0),
        map-id,
        map-bind_from f matched,
        map-bind_from f source_column,
      )
      (bind_cong (f.format_table_name table) _ _ λ t _.
        bind_cong (format_names f (names columns)) _ _ λ ns e.
          bind_cong (format_names f conflict_cols) _ _
            λ ks _. simp (write_matched-clause f columns with_update _ ns e, e, append_assoc))
