-- ===== src/Tests/Queries.antt =====
-- The builders' queries at concrete tables.
use mathlib.Core.List.{Permᴰ}
use go_sqldb.Builder.Values.{sorted_columns_and_values}
use go_sqldb.Builder.Values.Order.{sorted_columns_and_values-Permᴰ}
use go_sqldb.Prelude.{
  ℕ, ◌≡◌, refl, ◌>>=◌, ◌∷◌, [], true, false, List, Bytes, codes, ◌++◌, ok, err, map, indices,
  length, not, keep, if◌then◌else◌, Result,
}
use go_sqldb.Value.{string}
use go_sqldb.Formatter.{QueryFormatter}
use go_sqldb.Formatter.Std.{StdQueryFormatter, std_query_formatter}
use go_sqldb.Builder.{ColumnInfo, Values}
use go_sqldb.Builder.Std.{insert_rows, update_columns}
use go_sqldb.Builder.Std.Refines.{insert_rows-print, update_columns-print}
use go_sqldb.Postgres.Builder as PostgresBuilder
use go_sqldb.Postgres.Builder.Refines.{upsert-print_postgres}
use go_sqldb.Mysql.Builder as MysqlBuilder
use go_sqldb.Mysql.Builder.Refines.{update-print_mysql}

abbrev pub formatter : QueryFormatter
formatter =
    std_query_formatter
      (record { placeholder_pos_prefix = codes "$"; disable_substitute_placeholders = true })

abbrev id_column : ColumnInfo
id_column = record {
  name = codes "id";
  type = codes "int";
  primary_key = true;
  has_default = false;
  read_only = false;
  generated = false;
}

abbrev email_column : ColumnInfo
email_column = record {
  name = codes "email";
  type = codes "text";
  primary_key = false;
  has_default = false;
  read_only = false;
  generated = false;
}

abbrev pub columns : List ColumnInfo
columns = id_column ∷ email_column ∷ []

abbrev pub users : Bytes
users = codes "users"

abbrev changes : Values
changes = (codes "name", string (codes "Ann")) ∷ (codes "email", string (codes "a@b")) ∷ []

insert_rows-print_example :
    insert_rows formatter users columns 2
    ≡ ok (codes "INSERT INTO users(id,email) VALUES($1,$2),($3,$4)")
unfolding go_sqldb.Formatter.Std.format_table_name go_sqldb.Formatter.Names.matches_qualified
    go_sqldb.Formatter.Std.format_column_name go_sqldb.Builder.Statement.print
    go_sqldb.Formatter.Std.format_placeholder go_sqldb.Prelude.bytes_eq
    go_sqldb.Formatter.Placeholder.itoa
insert_rows-print_example = insert_rows-print formatter users columns 2

update_columns-print_example :
    update_columns formatter users columns ≡ ok (codes "UPDATE users SET email=$1 WHERE id = $2")
unfolding go_sqldb.Formatter.Std.format_table_name go_sqldb.Formatter.Names.matches_qualified
    go_sqldb.Formatter.Std.format_column_name go_sqldb.Builder.Statement.print
    go_sqldb.Formatter.Std.format_placeholder go_sqldb.Prelude.bytes_eq
    go_sqldb.Formatter.Placeholder.itoa
update_columns-print_example = update_columns-print formatter users columns

upsert-print_postgres_example :
    PostgresBuilder.upsert formatter users columns
    ≡ ok (codes "INSERT INTO users(id,email) VALUES($1,$2) ON CONFLICT (id) DO UPDATE SET email=$2")
unfolding go_sqldb.Formatter.Std.format_table_name go_sqldb.Formatter.Names.matches_qualified
    go_sqldb.Formatter.Std.format_column_name go_sqldb.Builder.Statement.print
    go_sqldb.Formatter.Std.format_placeholder go_sqldb.Prelude.bytes_eq
    go_sqldb.Formatter.Placeholder.itoa
upsert-print_postgres_example = upsert-print_postgres formatter users columns

update-print_mysql_example :
    MysqlBuilder.update formatter users changes (codes "id = ?") (string (codes "7") ∷ [])
    ≡ ok (
      codes "UPDATE users SET email=$2, name=$3 WHERE id = ?",
      string (codes "a@b") ∷ string (codes "Ann") ∷ string (codes "7") ∷ [],
    )
unfolding go_sqldb.Formatter.Std.format_table_name go_sqldb.Formatter.Names.matches_qualified
    go_sqldb.Builder.Values.sorted_columns_and_values go_sqldb.Formatter.Std.format_column_name
    go_sqldb.Builder.Statement.print go_sqldb.Prelude.bytes_eq
    go_sqldb.Formatter.Std.format_placeholder go_sqldb.Formatter.Placeholder.itoa
update-print_mysql_example =
    update-print_mysql formatter users (codes "id = ?") changes (string (codes "7") ∷ [])

abbrev changes_iterated : Values
changes_iterated = (codes "email", string (codes "a@b")) ∷ (codes "name", string (codes "Ann")) ∷ []

sorted_columns_and_values-Permᴰ_example :
    sorted_columns_and_values changes ≡ sorted_columns_and_values changes_iterated
sorted_columns_and_values-Permᴰ_example =
    sorted_columns_and_values-Permᴰ (Permᴰ.swap refl refl) (((λ h. cc), tt), (tt, tt))
