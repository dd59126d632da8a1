-- ===== src/Tests/Deletes.antt =====
-- Upserting and deleting rows of two columns, the first of them the key.
use go_sqldb.Prelude.{
  ℕ, ◌+◌, ◌≡◌, refl, ok, err, some, true, false, [], ◌∷◌, List, Bytes, codes, map, Bool, with_query,
  no_rows, length, Option,
}
use go_sqldb.Builder.{ColumnInfo}
use go_sqldb.Builder.Std.{std_query_builder}
use go_sqldb.Formatter.{QueryFormatter}
use go_sqldb.Transaction.{World}
use go_sqldb.Insert.{QueryCache}
use go_sqldb.Rows.{all_rows, stmt_rows}
use go_sqldb.Rows.Loop.{done, row_done}
use go_sqldb.Upsert.{UpsertQueryBuilder, upsert_entry}
use go_sqldb.Delete.{
  RowsAffected, delete_methods, delete_row_struct, delete_row_structs, delete_entry,
}
use go_sqldb.Delete.Missing.{delete_rows-missing}
use go_sqldb.Tests.Queries.{formatter, columns}
use go_sqldb.Tests.Transactions.{Ledger, ledger, fresh}
use go_sqldb.Tests.Inserts.{ann, bob, user_field, user_reflector}

abbrev upserting : UpsertQueryBuilder
upserting = record {
  insert_unique = λ fmtr table columns target. ok (codes "INSERT");
  upsert = λ fmtr table columns. ok (codes "UPSERT");
}

abbrev upsert_user : QueryCache Bool
upsert_user = record { query = codes "UPSERT"; struct_field_indices = false ∷ true ∷ [] }

ann_upserted :
    upsert_entry user_reflector upserting formatter ann
    ≡ ok (upsert_user, user_field ann false ∷ user_field ann true ∷ [])
unfolding upsert_entry
ann_upserted = refl

-- Deletes one row for a key, and none for a second key.
abbrev deleting : RowsAffected Ledger ℕ
deleting = record {
  exec_rows_affected = λ c query args s. (ok 1, s);
  stmt_exec_rows_affected = λ c stmt args s. (ok s.pending, record s { pending = 0 });
}

abbrev delete_user : QueryCache Bool
delete_user = record {
  query = codes "DELETE FROM users WHERE id = $1 AND email = $2";
  struct_field_indices = false ∷ true ∷ [];
}

ann_deleted :
    delete_entry user_reflector std_query_builder formatter ann
    ≡ ok (delete_user, user_field ann false ∷ user_field ann true ∷ [])
unfolding delete_entry go_sqldb.Builder.Std.delete go_sqldb.Formatter.Std.format_table_name
    go_sqldb.Formatter.Names.matches_qualified go_sqldb.Builder.Loops.write_each
    go_sqldb.Formatter.Std.format_column_name go_sqldb.Formatter.Std.format_placeholder
    go_sqldb.Prelude.bytes_eq go_sqldb.Formatter.Placeholder.itoa
ann_deleted = refl

abbrev stocked : World Ledger
stocked = record fresh { store = record fresh.store { pending = 3 } }

abbrev emptied : World Ledger
emptied = record fresh { store = record fresh.store { pending = 0 } }

delete_rows-missing_example :
    all_rows ledger
      (delete_methods ledger deleting user_reflector std_query_builder formatter)
      (ann ∷ bob ∷ ann ∷ [])
      0
      stocked
    ≡ (err (with_query (codes "DELETE FROM users WHERE id = $1 AND email = $2") no_rows), emptied)
unfolding go_sqldb.Delete.delete_statement go_sqldb.Delete.delete_values go_sqldb.Rows.stmt_row
    go_sqldb.Delete.affected go_sqldb.Builder.Std.delete go_sqldb.Formatter.Std.format_table_name
    go_sqldb.Formatter.Names.matches_qualified go_sqldb.Builder.Loops.write_each
    go_sqldb.Formatter.Std.format_column_name go_sqldb.Formatter.Std.format_placeholder
    go_sqldb.Prelude.bytes_eq go_sqldb.Formatter.Placeholder.itoa
delete_rows-missing_example =
    delete_rows-missing ledger deleting user_reflector std_query_builder formatter 0 1
      (codes "DELETE FROM users WHERE id = $1 AND email = $2") columns (ann ∷ []) bob (ann ∷ [])
      stocked emptied (user_field bob false ∷ user_field bob true ∷ []) stocked.store emptied.store
      refl refl (row_done refl done) refl refl
