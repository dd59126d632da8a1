-- ===== src/Mysql/Builder/Refines.antt =====
-- Upsert and Update of the MySQL builder.
use go_sqldb.Prelude.{
  ◌≡◌, ap, true, false, not, List, [], ◌∷◌, ◌++◌, map, append_assoc, Bytes, codes, length, join,
  if◌then◌else◌, requires_non_primary_key, Result, ok, err, ◌>>=◌, >>=-assoc,
}
use go_sqldb.Formatter.{QueryFormatter}
use go_sqldb.Builder.{ColumnInfo}
use go_sqldb.Builder.Loops.{write_some-join}
use go_sqldb.Builder.Statement.{insert_into, print, format_names, bind_from}
use go_sqldb.Builder.Std.{has_non_pk}
use go_sqldb.Builder.Std.Refines.{insert-print, names, row_placeholders}
use go_sqldb.Builder.Upsert.{pick, is_not_key, bind_cong, traverse-pick_names}
use go_sqldb.Value.{Value}
use go_sqldb.Prelude.{
  ◌&&◌, ltb, length-append, take-append_length, drop-append_length, arith, append-nil, ◌∙◌, sym,
}
use go_sqldb.Builder.{Values}
use go_sqldb.Builder.Statement.{update_where}
use go_sqldb.Builder.Values.{sorted_columns_and_values}
use go_sqldb.Builder.Std.Refines.{update-print}
use go_sqldb.Mysql.Builder.{upsert, inserted, update, reorder_args}

abbrev pub upsert_text : QueryFormatter → Bytes → List ColumnInfo → List Bytes → Bytes
upsert_text f t columns ns =
    print (insert_into t ns (row_placeholders f (length columns) 0 ∷ []))
    ++ (codes " ON DUPLICATE KEY UPDATE"
        ++ join (codes ",") (map inserted (pick is_not_key columns ns)))

-- Upsert refuses columns that are all keys. Otherwise it fails only where Insert does, and it
-- prints Insert's statement with an assignment of the inserted value to each column that is no key.
pub upsert-print_mysql :
    (f : QueryFormatter) (table : Bytes) (columns : List ColumnInfo)
    → upsert f table columns ≡ (
        if not (has_non_pk columns)
        then err requires_non_primary_key
        else f.format_table_name table >>= λ t.
            format_names f (names columns) >>= λ ns. ok (upsert_text f t columns ns))
unfolding upsert
upsert-print_mysql f table columns =
    simp (insert-print f, >>=-assoc, write_some-join)
      (ap
        (λ (r : Result Bytes). if not (has_non_pk columns) then err requires_non_primary_key else r)
        (bind_cong (f.format_table_name table) _ _ λ t _.
          bind_cong (format_names f (names columns)) _ _ λ ns e.
            simp (traverse-pick_names f is_not_key inserted 0 0 columns ns e, append_assoc)))

reorder_args_swaps :
    (where_args vals : List Value)
    → (ltb 0 (length where_args) && ltb (length where_args) (length (where_args ++ vals))) ≡ true
    → reorder_args where_args (where_args ++ vals) ≡ vals ++ where_args
unfolding reorder_args
reorder_args_swaps where_args vals h = rw (h, drop-append_length, take-append_length)

reorder_args_keeps :
    (where_args vals : List Value)
    → (ltb 0 (length where_args) && ltb (length where_args) (length (where_args ++ vals))) ≡ false
    → reorder_args where_args (where_args ++ vals) ≡ where_args ++ vals
unfolding reorder_args
reorder_args_keeps where_args vals h = rw h

-- Whatever the two parts hold, empty ones included, the reordered arguments are the values first.
pub reorder_args-append :
    (where_args vals : List Value)
    → reorder_args where_args (where_args ++ vals) ≡ vals ++ where_args
reorder_args-append [] vals = reorder_args_keeps [] vals (ground arith) ∙ sym (append-nil vals)
reorder_args-append (a ∷ where_args) [] =
    reorder_args_keeps (a ∷ where_args) [] (rw append-nil (ground arith))
    ∙ append-nil (a ∷ where_args)
reorder_args-append (a ∷ where_args) (v ∷ vals) =
    reorder_args_swaps (a ∷ where_args) (v ∷ vals)
      (ground (arith, length-append where_args (v ∷ vals)))

-- Update prints the statement of the standard builder, and its arguments are in the order of the
-- placeholders in the text: the values of the assignments, then those of the condition.
pub update-print_mysql :
    (f : QueryFormatter) (table where_condition : Bytes) (values : Values) (where_args : List Value)
    → update f table values where_condition where_args ≡ (
        f.format_table_name table >>= λ t.
        format_names f (names (sorted_columns_and_values values).0) >>= λ ns. ok (
          print (update_where t (bind_from f (length where_args) ns) where_condition),
          (sorted_columns_and_values values).1 ++ where_args,
        ))
unfolding update
update-print_mysql f table where_condition values where_args =
    simp (update-print f, >>=-assoc, reorder_args-append)
