-- ===== src/Tests/Errors.antt =====
-- Errors of the drivers and the messages that the constraints are cut out of.
use go_sqldb.Prelude.{
  not, ◌&&◌, ℕ, ◌≡◌, ◌≢◌, refl, arith, true, false, List, [], some, Bytes, codes, has_prefix,
}
use go_sqldb.Errors.{
  Violation-discrete, DbError, Violation, integrity, unique, foreign_key, not_null, check,
  driver_error, wrapped, joined, violation, as_violation, is_some, is_error, is_query_canceled,
  as_driver, as_exception, is_deadlock, is_serialization_failure, first_error, is_context_canceled,
  restrict, exclusion,
}
use go_sqldb.Errors.Walk.{IsRaw, join_with}
use go_sqldb.Errors.Postgres
use go_sqldb.Errors.Postgres.Agreed.{is_named, text_or_empty, join_known-agrees}
use go_sqldb.Errors.Mysql.Told.{join_known-tells, dup_key-message}
use go_sqldb.Errors.Sqlite.Classified.{join_known-classifies}
use go_sqldb.Errors.Mysql
use go_sqldb.Errors.Mssql
use go_sqldb.Errors.Sqlite
use go_sqldb.Quoting.{to_lower}
use go_sqldb.Errors.Oracle
use go_sqldb.Errors.Messages.{nth_quoted, cut, last_after, contains}

abbrev duplicate : DbError ℕ
duplicate =
    wrapped (codes "insert") (joined (violation unique (codes "users_pkey")) (driver_error 7))

dup_key-message_example :
    Mysql.dup_key (codes "Duplicate entry 'a' for key 'users.email'") ≡ codes "email"
dup_key-message_example =
    dup_key-message (codes "a") (codes "users") (codes "email") (ground arith) (ground arith)
      (ground arith) (ground arith)

-- A value with a single quote in it shifts the quoted pieces.
shifted_key :
    Mysql.dup_key (codes "Duplicate entry 'O'Brien' for key 'users.name'") ≡ codes " for key "
unfolding Mysql.dup_key Mysql.nth_single_quoted nth_quoted cut last_after
shifted_key = refl

module _ {D : Type 0} (d : D) where
  IsRaw-driver : IsRaw (wrapped (codes "exec") (driver_error d))
  unfolding as_violation is_error as_exception first_error
  IsRaw-driver = record {
    no_violation = λ k. refl;
    no_target = λ t. ground arith;
    no_exception = refl;
  }

abbrev deleted : Mssql.MsSqlError
deleted = record {
  number = 547;
  message = codes "The DELETE statement conflicted with the REFERENCE constraint \"FK_A\".";
}

-- Deleting a referenced row is reported as a failed check, and by no function as a foreign key.
deleted_row :
    (as_violation check (Mssql.join_known (driver_error deleted)) ≡ some (codes "FK_A"))
    × (Mssql.is_check_violation (driver_error deleted) ≡ false)
    × (Mssql.is_foreign_key_violation (driver_error deleted) [] ≡ false)
unfolding Violation-discrete Mssql.join_known join_with Mssql.number_of Mssql.names_foreign_key
    Mssql.names_check Mssql.first_double_quoted Mssql.is_check_violation
    Mssql.is_foreign_key_violation as_driver as_violation first_error contains has_prefix nth_quoted
    cut
deleted_row = (refl, refl, refl)

abbrev pq_error : DbError Postgres.PqError
pq_error = wrapped (codes "exec") (
    driver_error
      (record { code = Postgres.unique_violation; message = []; constraint = codes "users_pkey" }))

join_known-agrees_example :
    (is_some (as_violation restrict (Postgres.join_known pq_error))
      ≡ Postgres.is_restrict_violation pq_error)
    × (is_some (as_violation not_null (Postgres.join_known pq_error))
        ≡ Postgres.is_not_null_violation pq_error)
    × ((names : List Bytes)
        → is_named names (as_violation foreign_key (Postgres.join_known pq_error))
          ≡ Postgres.is_foreign_key_violation pq_error names)
    × (is_some (as_violation unique (Postgres.join_known pq_error))
        ≡ Postgres.is_unique_violation pq_error)
    × (is_some (as_violation check (Postgres.join_known pq_error))
        ≡ Postgres.is_check_violation pq_error)
    × (is_some (as_violation exclusion (Postgres.join_known pq_error))
        ≡ Postgres.is_exclusion_violation pq_error)
    × (is_error is_deadlock (Postgres.join_known pq_error) ≡ Postgres.is_deadlock_detected pq_error)
    × (is_error is_serialization_failure (Postgres.join_known pq_error)
        ≡ Postgres.is_serialization_failure_error pq_error)
    × (is_error is_query_canceled (Postgres.join_known pq_error)
        ≡ Postgres.is_query_canceled_error pq_error)
    × (text_or_empty (as_exception (Postgres.join_known pq_error))
        ≡ Postgres.get_raised_exception pq_error)
    × ((k : Violation)
        → k ≢ integrity
        → as_violation k (Postgres.join_known pq_error)
          ≡ Postgres.constraint_of (Postgres.pq_as (Postgres.violation_code k) pq_error))
    × (as_exception (Postgres.join_known pq_error)
        ≡ Postgres.message_of (Postgres.pq_as Postgres.raise_exception pq_error))
    × (as_driver (Postgres.join_known pq_error) ≡ as_driver pq_error)
join_known-agrees_example = join_known-agrees pq_error (IsRaw-driver _)

abbrev mysql_error : DbError Mysql.MySqlError
mysql_error = wrapped (codes "exec") (
    driver_error
      (record { number = 1062; message = codes "Duplicate entry 'a' for key 'users.email'" }))

join_known-tells_example :
    (is_some (as_violation not_null (Mysql.join_known mysql_error))
      ≡ Mysql.is_not_null_violation mysql_error)
    × (is_some (as_violation unique (Mysql.join_known mysql_error))
        ≡ Mysql.is_unique_violation mysql_error)
    × (is_some (as_violation check (Mysql.join_known mysql_error))
        ≡ Mysql.is_check_violation mysql_error)
    × (is_error is_deadlock (Mysql.join_known mysql_error) ≡ Mysql.is_deadlock_detected mysql_error)
    × ((names : List Bytes)
        → Mysql.is_named names (as_violation foreign_key (Mysql.join_known mysql_error))
          ≡ Mysql.is_foreign_key_violation mysql_error names)
    × (as_driver (Mysql.join_known mysql_error) ≡ as_driver mysql_error)
join_known-tells_example = join_known-tells mysql_error (IsRaw-driver _)

abbrev mssql_error : DbError Mssql.MsSqlError
mssql_error = wrapped (codes "exec") (driver_error deleted)

join_known-reports_example :
    (is_some (as_violation not_null (Mssql.join_known mssql_error))
      ≡ Mssql.is_not_null_violation mssql_error)
    × (is_some (as_violation unique (Mssql.join_known mssql_error))
        ≡ Mssql.is_unique_violation mssql_error)
    × (is_error is_deadlock (Mssql.join_known mssql_error) ≡ Mssql.is_deadlock_detected mssql_error)
    × ((names : List Bytes)
        → Mssql.is_named names (as_violation foreign_key (Mssql.join_known mssql_error))
          ≡ Mssql.is_foreign_key_violation mssql_error names)
    × (Mssql.is_check_violation mssql_error ≡ true
        → Mssql.is_foreign_key_violation mssql_error [] ≡ false
        → is_some (as_violation check (Mssql.join_known mssql_error)) ≡ true)
    × (as_driver (Mssql.join_known mssql_error) ≡ as_driver mssql_error)
join_known-reports_example = Mssql.join_known-reports mssql_error (IsRaw-driver _)

abbrev oracle_error : DbError Oracle.OracleError
oracle_error = wrapped (codes "exec") (
    driver_error (record {
      err_code = 2291;
      err_msg = codes "ORA-02291: integrity constraint (S.FK) violated";
    }))

-- A missing value in a table whose name has one of the words.
abbrev sqlite_text : DbError ℕ → Bytes
sqlite_text e = codes "NOT NULL constraint failed: unique_users.Name"

abbrev sqlite_primary : DbError ℕ → Sqlite.Primary
sqlite_primary e = Sqlite.result_constraint

abbrev sqlite_error : DbError ℕ
sqlite_error = wrapped (codes "exec") (driver_error 1299)

-- The missing value is taken for a duplicate.
misread_word : Sqlite.violation_kind (to_lower (sqlite_text sqlite_error)) ≡ unique
unfolding Sqlite.violation_kind contains has_prefix
misread_word = refl

-- The name of the constraint is in lower case.
lowered_name :
    Sqlite.extract_constraint (to_lower (sqlite_text sqlite_error)) ≡ codes "unique_users.name"
unfolding Sqlite.extract_constraint Sqlite.behind Sqlite.until_separator go_sqldb.Space.trim_space
    has_prefix
lowered_name = refl

join_known-classifies_example :
    (is_some (as_violation integrity (Sqlite.join_known sqlite_primary sqlite_text sqlite_error))
      ≡ Sqlite.is_constraint_violation sqlite_primary sqlite_text sqlite_error)
    × (is_some
          (as_violation foreign_key (Sqlite.join_known sqlite_primary sqlite_text sqlite_error))
        ≡ Sqlite.is_foreign_key_violation sqlite_primary sqlite_text sqlite_error)
    × (is_some (as_violation unique (Sqlite.join_known sqlite_primary sqlite_text sqlite_error)) ≡ (
        not (Sqlite.is_foreign_key_violation sqlite_primary sqlite_text sqlite_error)
        && Sqlite.is_unique_violation sqlite_primary sqlite_text sqlite_error))
    × (is_some (as_violation not_null (Sqlite.join_known sqlite_primary sqlite_text sqlite_error))
        ≡ (not (Sqlite.is_foreign_key_violation sqlite_primary sqlite_text sqlite_error)
            && (not (Sqlite.is_unique_violation sqlite_primary sqlite_text sqlite_error)
                && Sqlite.is_not_null_violation sqlite_primary sqlite_text sqlite_error)))
    × (is_some (as_violation check (Sqlite.join_known sqlite_primary sqlite_text sqlite_error)) ≡ (
        not (Sqlite.is_foreign_key_violation sqlite_primary sqlite_text sqlite_error)
        && (not (Sqlite.is_unique_violation sqlite_primary sqlite_text sqlite_error)
            && (not (Sqlite.is_not_null_violation sqlite_primary sqlite_text sqlite_error)
                && Sqlite.is_check_violation sqlite_primary sqlite_text sqlite_error))))
    × (is_error is_context_canceled (Sqlite.join_known sqlite_primary sqlite_text sqlite_error)
        ≡ Sqlite.is_interrupt (sqlite_primary sqlite_error))
join_known-classifies_example =
    join_known-classifies sqlite_primary sqlite_text sqlite_error (IsRaw-driver _)
