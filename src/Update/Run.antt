-- ===== src/Update/Run.antt =====
-- `UpdateRowStruct` and `UpdateRowStructs` of update.go, in the frame of Rows.
use go_sqldb.Prelude.{Bool, List, Option, Error}
use go_sqldb.Formatter.{QueryFormatter}
use go_sqldb.Builder.{QueryBuilder}
use go_sqldb.Transaction.{Connection, World, Outcome}
use go_sqldb.Insert.{StructReflector, QueryCache}
use go_sqldb.Rows.{RowMethods, exec_wrapped, stmt_exec_wrapped, row_struct, row_structs}
use go_sqldb.Update.{update_entry, update_statement, update_values}

module _ {S C R I : Type 0} (conn : Connection S C) (refl : StructReflector R I)
    (builder : QueryBuilder) (fmtr : QueryFormatter) where
  abbrev pub update_methods : RowMethods S C R I
  update_methods = record {
    reflector = refl;
    entry = update_entry refl builder fmtr;
    statement = update_statement refl builder fmtr;
    row_values = update_values refl builder fmtr;
    exec = exec_wrapped conn;
    stmt_exec = stmt_exec_wrapped conn;
  }

  unfoldable pub update_row_struct :
      C
      → Bool
      → Option (QueryCache I)
      → R
      → World S
      → (Option Error × Option (QueryCache I)) × World S
  update_row_struct = row_struct conn update_methods

  unfoldable pub update_row_structs :
      C
      → Bool
      → Option (QueryCache I)
      → List R
      → World S
      → (Outcome × Option (QueryCache I)) × World S
  update_row_structs = row_structs conn update_methods
