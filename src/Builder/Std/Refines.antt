-- ===== src/Builder/Std/Refines.antt =====
-- Each operation of `StdQueryBuilder` prints a statement. A name that the formatter refuses makes
-- the operation fail with the formatter's error, the table's before the columns'.
use mathlib.Core.List.{map-id}
use native.Mathlib.Nat.{zero-add, add-zero, zero-mul}
use go_sqldb.Prelude.{
  ℕ, ◌==◌, ◌*◌, ◌≡◌, not, ◌++◌, List, [], ◌∷◌, map, append_assoc, Bytes, codes, length, indices,
  keep, ltb, requires_non_primary_key, requires_column, if◌then◌else◌, ok, err, ◌>>=◌, >>=-assoc,
  num_rows_below_one, length-map,
}
use go_sqldb.Value.{Value}
use go_sqldb.Formatter.{QueryFormatter}
use go_sqldb.Builder.{ColumnInfo, Values}
use go_sqldb.Builder.Loops.{write_each-join, write_some-join, write_each}
use go_sqldb.Builder.Statement.{
  select_by, insert_into, update_where, delete_by, print, format_names, bind_from, conjunction,
  condition, assignment, tuple,
}
use go_sqldb.Builder.Bindings.{
  traverse-numbered, traverse-offset, traverse-ok, traverse-bind, traverse-names, length-bind_from,
  map-indices, traverse-map, map-map_pointwise,
}
use go_sqldb.Builder.Values.{sorted_columns_and_values}
use go_sqldb.Builder.Std.{
  query_row_with_pk, insert, insert_rows, write_row, update, update_columns, delete, has_non_pk,
  pk_loop, write_condition, write_assignment,
}

abbrev pub names : List ColumnInfo → List Bytes
names = map (λ c. c.name)

ruleset print_laws = (>>=-assoc, append_assoc, zero-add, write_each-join, write_some-join)

-- The placeholders of the row `row` of an INSERT of `n` columns.
abbrev pub row_placeholders : QueryFormatter → ℕ → ℕ → List Bytes
row_placeholders f n row = map f.format_placeholder (indices (row * n) n)

write_row-tuple :
    (f : QueryFormatter) (columns : List ColumnInfo) (row : ℕ)
    → write_row f columns row ≡ ok (tuple (row_placeholders f (length columns) row))
unfolding write_row
write_row-tuple f columns row =
    simp (print_laws, traverse-ok, map-indices f.format_placeholder, add-zero)

pk_loop-write_each :
    (f : QueryFormatter) (t pk : Bytes) (pks : List Bytes)
    → pk_loop f t (pk ∷ pks)
      ≡ write_each
          (codes " AND ")
          (write_condition f)
          0
          (pk ∷ pks)
          (codes "SELECT * FROM " ++ (t ++ codes " WHERE "))
unfolding write_each
pk_loop-write_each f t pk pks = simp (>>=-assoc, append_assoc, zero-add)

module _ (f : QueryFormatter) where
  -- Insert prints INSERT INTO for the columns in their order, with one row of placeholders, the
  -- i-th for the i-th column.
  pub insert-print :
      (table : Bytes) (columns : List ColumnInfo)
      → insert f table columns ≡ (
          f.format_table_name table >>= λ t. format_names f (names columns) >>= λ ns.
          ok (print (insert_into t ns (row_placeholders f (length columns) 0 ∷ []))))
  unfolding insert print
  insert-print table columns =
      simp (print_laws, traverse-names f (λ (c : ColumnInfo). c.name), traverse-ok, zero-mul)

  -- InsertRows prints INSERT INTO with a tuple of placeholders for each row, numbered through.
  pub insert_rows-print :
      (table : Bytes) (columns : List ColumnInfo) (num_rows : ℕ)
      → insert_rows f table columns num_rows ≡ (
          if ltb num_rows 1
          then err (num_rows_below_one num_rows)
          else f.format_table_name table >>= λ t. format_names f (names columns) >>= λ ns. ok (
              print (
                insert_into t ns (map (row_placeholders f (length columns)) (indices 0 num_rows)))))
  unfolding insert_rows print
  insert_rows-print table columns num_rows = simp (
    print_laws,
    traverse-names f (λ (c : ColumnInfo). c.name),
    write_row-tuple,
    traverse-map,
    map-map_pointwise,
  )

  -- QueryRowWithPK prints a SELECT with a condition for each key column, the i-th with the i-th
  -- placeholder, if there is a key column.
  pub query_row_with_pk-print :
      (table pk : Bytes) (pks : List Bytes)
      → query_row_with_pk f table (pk ∷ pks) ≡ (
          f.format_table_name table >>= λ t.
          format_names f (pk ∷ pks) >>= λ ns. ok (print (select_by t (bind_from f 0 ns))))
  unfolding query_row_with_pk print
  query_row_with_pk-print table pk pks =
      simp (pk_loop-write_each f)
        (simp (print_laws, traverse-bind f (λ (n : Bytes). n) condition, map-id))

  -- Update prints UPDATE with an assignment for each column in sorted order, whose placeholders
  -- follow those of the condition's arguments, and appends the values to these arguments.
  pub update-print :
      (table where_condition : Bytes) (values : Values) (where_args : List Value)
      → update f table values where_condition where_args ≡ (
          f.format_table_name table >>= λ t.
          format_names f (names (sorted_columns_and_values values).0) >>= λ ns. ok (
            print (update_where t (bind_from f (length where_args) ns) where_condition),
            where_args ++ (sorted_columns_and_values values).1,
          ))
  unfolding update print
  update-print table where_condition values where_args = simp (
    print_laws,
    traverse-offset (λ i (c : ColumnInfo). write_assignment f i c.name) (length where_args),
    add-zero,
    traverse-bind f (λ (c : ColumnInfo). c.name) assignment,
  )

  -- UpdateColumns needs a column that is no key. It assigns these and compares the keys; the
  -- placeholders are numbered through, first those of the assignments, then those of the keys.
  pub update_columns-print :
      (table : Bytes) (columns : List ColumnInfo)
      → update_columns f table columns ≡ (
          if not (has_non_pk columns)
          then err requires_non_primary_key
          else f.format_table_name table >>= λ t.
              format_names f (names (keep (λ c. not c.primary_key) columns)) >>= λ ns.
              format_names f (names (keep (λ c. c.primary_key) columns)) >>= λ ks. ok (
                print
                  (update_where t (bind_from f 0 ns) (conjunction (bind_from f (length ns) ks)))))
  unfolding update_columns print
  update_columns-print table columns = simp (
    print_laws,
    traverse-numbered (λ (c : ColumnInfo). not c.primary_key)
        (λ i (c : ColumnInfo). write_assignment f i c.name),
    traverse-numbered (λ (c : ColumnInfo). c.primary_key)
        (λ i (c : ColumnInfo). write_condition f i c.name),
    traverse-bind f (λ (c : ColumnInfo). c.name) assignment,
    traverse-bind f (λ (c : ColumnInfo). c.name) condition,
    length-map,
    length-bind_from,
  )

  -- Delete needs a column, and prints DELETE with a condition for each column, the i-th with the
  -- i-th placeholder.
  pub delete-print :
      (table : Bytes) (columns : List ColumnInfo)
      → delete f table columns ≡ (
          if length columns == 0
          then err requires_column
          else f.format_table_name table >>= λ t.
              format_names f (names columns) >>= λ ns. ok (print (delete_by t (bind_from f 0 ns))))
  unfolding delete print
  delete-print table columns =
      simp (print_laws, traverse-bind f (λ (c : ColumnInfo). c.name) condition)
