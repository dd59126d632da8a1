-- ===== src/Tests/Updates.antt =====
-- Updating rows of two columns, the first of them the key.
use go_sqldb.Prelude.{
  ◌≡◌, refl, ok, none, some, true, false, [], ◌∷◌, List, Bytes, codes, map, Bool,
}
use go_sqldb.Builder.{ColumnInfo}
use go_sqldb.Builder.Std.{std_query_builder}
use go_sqldb.Insert.{QueryCache, StructReflector}
use go_sqldb.Update.{reorder_for_update, update_entry}
use go_sqldb.Update.Run.{update_row_struct}
use go_sqldb.Update.Reorder.{reorder_for_update-arranged}
use go_sqldb.Update.Unwrapped.{IsWrapping, executed, update_row_struct-unwrapped}
use go_sqldb.Value.{Value, string}
use go_sqldb.Tests.Queries.{formatter, columns}
use go_sqldb.Tests.Transactions.{ledger, fresh}
use go_sqldb.Tests.Inserts.{User, ann, bob, user_field, user_reflector}

reorder_for_update-arranged_example :
    reorder_for_update columns (codes "id" ∷ codes "email" ∷ [])
    ≡ ok (codes "email" ∷ codes "id" ∷ [])
reorder_for_update-arranged_example = reorder_for_update-arranged (λ c. c.name) columns

abbrev update_user : QueryCache Bool
update_user = record {
  query = codes "UPDATE users SET email=$1 WHERE id = $2";
  struct_field_indices = true ∷ false ∷ [];
}

-- A reflector that wraps the second field, and what it fills the slot of the cache with.
abbrev braced : Bool → Value → Value
braced false val = val
braced true val = string (codes "wrapped")

abbrev wrapping : StructReflector User Bool
wrapping = record user_reflector {
  reflect_struct_columns_field_indices_and_values = λ user.
      ok (columns, false ∷ true ∷ [], user_field user false ∷ string (codes "wrapped") ∷ []);
}

wrapping-IsWrapping : IsWrapping wrapping
wrapping-IsWrapping = record {
  shape = ok (columns, false ∷ true ∷ []);
  wrap_as_valuer = braced;
  reflects = λ user. refl;
}

ann_wrapped :
    update_entry wrapping std_query_builder formatter ann
    ≡ ok (update_user, string (codes "wrapped") ∷ user_field ann false ∷ [])
unfolding update_entry go_sqldb.Builder.Std.update_columns go_sqldb.Formatter.Std.format_table_name
    go_sqldb.Formatter.Names.matches_qualified go_sqldb.Builder.Loops.write_some
    go_sqldb.Formatter.Std.format_column_name reorder_for_update go_sqldb.Update.entries_of
    go_sqldb.Formatter.Std.format_placeholder go_sqldb.Prelude.bytes_eq
    go_sqldb.Formatter.Placeholder.itoa
ann_wrapped = refl

update_row_struct-unwrapped_example :
    (update_row_struct ledger wrapping std_query_builder formatter 0 true none bob fresh
      ≡ executed ledger wrapping std_query_builder formatter 0 update_user
          (string (codes "wrapped") ∷ user_field bob false ∷ [])
          fresh)
    × (update_row_struct ledger wrapping std_query_builder formatter 0 true
          (some update_user)
          bob
          fresh
        ≡ executed ledger wrapping std_query_builder formatter 0 update_user
            (user_field bob true ∷ user_field bob false ∷ [])
            fresh)
update_row_struct-unwrapped_example =
    update_row_struct-unwrapped ledger wrapping std_query_builder formatter wrapping-IsWrapping ann
      update_user (string (codes "wrapped") ∷ user_field ann false ∷ []) ann_wrapped 0 bob bob fresh
      refl
