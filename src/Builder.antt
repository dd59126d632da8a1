-- ===== src/Builder.antt =====
-- The interfaces of querybuilder.go and `ColumnInfo` of columninfo.go. The text of a query is a
-- list of bytes; a run-time panic is an error.
pub mod Loops
pub mod Statement
pub mod Values
pub mod Bindings
pub mod Upsert
pub mod Std
use go_sqldb.Prelude.{ℕ, Bool, List, Bytes, Result}
use go_sqldb.Value.{Value}
use go_sqldb.Formatter.{QueryFormatter}

pub record ColumnInfo : Type 0 where
  pub name : Bytes
  pub type : Bytes
  pub primary_key : Bool
  pub has_default : Bool
  pub read_only : Bool
  pub generated : Bool

-- `map[string]any`, with its entries in the order of some iteration.
abbrev pub Values : Type 0
Values = List (Bytes × Value)

pub record QueryBuilder : Type 0 where
  pub query_row_with_pk : QueryFormatter → Bytes → List Bytes → Result Bytes
  pub insert : QueryFormatter → Bytes → List ColumnInfo → Result Bytes
  pub insert_rows : QueryFormatter → Bytes → List ColumnInfo → ℕ → Result Bytes
  pub update : QueryFormatter → Bytes → Values → Bytes → List Value → Result (Bytes × List Value)
  pub update_columns : QueryFormatter → Bytes → List ColumnInfo → Result Bytes
  pub delete : QueryFormatter → Bytes → List ColumnInfo → Result Bytes
