-- ===== src/Tests/Inserts.antt =====
-- Inserting rows whose columns are the three numbers of a list.
use go_sqldb.Builder.Statement.{print, insert_into}
use go_sqldb.Builder.Std.Refines.{row_placeholders, insert_rows-print}
use go_sqldb.Prelude.{
  map, indices, ltb, ◌∙◌, false, ℕ, zero, suc, ◌+◌, ◌≡◌, ◌≤◌, refl, ◌∷◌, [], true, false, List,
  Bytes, codes, ok, none, some, Option, arith, Bool,
}
use go_sqldb.Value.{Value, other, string}
use go_sqldb.Builder.{ColumnInfo, QueryBuilder}
use go_sqldb.Builder.Std.{std_query_builder}
use go_sqldb.Tests.Queries.{formatter, columns, users}
use go_sqldb.Insert.Atomic.{IsPrivate}
use go_sqldb.Tests.Transactions.{ledger}
use go_sqldb.Insert.{StructReflector, QueryCache, Batching, batching, new_entry}
use go_sqldb.Insert.Run.{outcome_of}
use go_sqldb.Insert.Batches.{IsPlan, batching-IsPlan}
use go_sqldb.Insert.Run.{insert_row_structs}
use go_sqldb.Transaction.{World}
use go_sqldb.Formatter.{QueryFormatter}
use go_sqldb.Insert.Delivery.{receiver}
use go_sqldb.Insert.Rows.{all_values, Yields}
use go_sqldb.Insert.Delivery.Whole.{Writes}
use go_sqldb.Insert.Delivery.Complete.{Delivered, insert_row_structs-Delivered}
use go_sqldb.Insert.Cache.{IsUniform}
use go_sqldb.Formatter.Placeholder.{itoa}

batching-IsPlan_example :
    (b : Batching) × (batching 65535 7 100000 ≡ ok b) × IsPlan 65535 7 100000 b
batching-IsPlan_example = batching-IsPlan 65535 7 100000 (omega arith) (omega arith) (omega arith)

abbrev pub User : Type 0
User = ℕ × Bytes

abbrev pub user_field : User → Bool → Value
user_field user false = other (itoa user.0)
user_field user true = string user.1

abbrev pub user_reflector : StructReflector User Bool
user_reflector = record {
  table_name_for_struct = ok users;
  deref_struct = λ user. ok user;
  reflect_struct_columns = ok columns;
  reflect_struct_values = λ user. ok (user_field user false ∷ user_field user true ∷ []);
  reflect_struct_columns_field_indices_and_values =
      λ user. ok (columns, false ∷ true ∷ [], user_field user false ∷ user_field user true ∷ []);
  field_by_index = user_field;
}

pub user_reflector-IsUniform : IsUniform user_reflector
user_reflector-IsUniform = record {
  shape = ok (columns, false ∷ true ∷ []);
  reflects = λ user. refl;
}

abbrev pub ann : User
ann = (7, codes "Ann")

abbrev pub bob : User
bob = (8, codes "Bob")

abbrev user_entry : QueryCache Bool
user_entry = record {
  query = codes "INSERT INTO users(id,email) VALUES($1,$2)";
  struct_field_indices = false ∷ true ∷ [];
}

ann_cached :
    new_entry user_reflector std_query_builder formatter ann
    ≡ ok (user_entry, user_field ann false ∷ user_field ann true ∷ [])
unfolding new_entry go_sqldb.Builder.Std.insert go_sqldb.Formatter.Std.format_table_name
    go_sqldb.Formatter.Names.matches_qualified go_sqldb.Builder.Loops.write_each
    go_sqldb.Formatter.Std.format_column_name go_sqldb.Formatter.Std.format_placeholder
    go_sqldb.Prelude.bytes_eq itoa
ann_cached = refl

abbrev nothing_sent : World (List Value)
nothing_sent = record { tx_counter = 0; savepoint_counter = 0; store = [] }

-- Room for two rows in a statement, so that five rows are two batches and a remainder.
abbrev narrow : QueryFormatter
narrow = record formatter { max_args = 4 }

user_reflector-Yields :
    Yields user_reflector (λ user. user_field user false ∷ user_field user true ∷ []) 2
user_reflector-Yields = record { reflects = λ user. refl; has_columns = λ user. refl }

not_below_one : (n : ℕ) → 1 ≤ n → ltb n 1 ≡ false
not_below_one n h = ground arith

narrow-Writes : Writes std_query_builder narrow users columns
unfolding go_sqldb.Formatter.Std.format_table_name go_sqldb.Formatter.Names.matches_qualified
    go_sqldb.Formatter.Std.format_column_name
narrow-Writes = record {
  query = λ n. print (
      insert_into users (codes "id" ∷ codes "email" ∷ [])
        (map (row_placeholders narrow 2) (indices 0 n)));
  writes = λ n h. insert_rows-print narrow users columns n ∙ rw (not_below_one n h) refl;
}

insert_row_structs-Delivered_example :
    Delivered []
      (all_values
        (λ (user : User). user_field user false ∷ user_field user true ∷ [])
        (ann ∷ bob ∷ ann ∷ bob ∷ ann ∷ []))
      (outcome_of (
        insert_row_structs
          (receiver 4)
          user_reflector
          std_query_builder
          narrow
          0
          true
          none
          (ann ∷ bob ∷ ann ∷ bob ∷ ann ∷ [])
          nothing_sent))
insert_row_structs-Delivered_example =
    insert_row_structs-Delivered user_reflector
      (λ (user : User). user_field user false ∷ user_field user true ∷ []) std_query_builder narrow
      users columns user_reflector-Yields narrow-Writes refl refl (omega arith) (omega arith) true
      none ann bob (ann ∷ bob ∷ ann ∷ []) nothing_sent

pub ledger-IsPrivate : IsPrivate ledger (λ s. s.balance)
ledger-IsPrivate = record {
  exec_keeps = λ c query args s. refl;
  prepare_keeps = λ c query s. refl;
  stmt_exec_keeps = λ c stmt args s. refl;
  stmt_close_keeps = λ c stmt s. refl;
}

abbrev narrow_batches : Batching
narrow_batches = record { rows_per_batch = 2; num_full_batches = 2; num_remainder_rows = 1 }
