-- ===== src/Formatter.antt =====
-- The interface `QueryFormatter` of queryformatter.go. `SubstitutePlaceholders` returns a text and
-- the errors that are joined.
pub mod Names
pub mod Placeholder
pub mod Substitute
pub mod Quoted
pub mod Std
use go_sqldb.Prelude.{ℕ, List, Bytes, Error, Result}
use go_sqldb.Value.{Value}

pub record QueryFormatter : Type 0 where
  pub format_table_name : Bytes → Result Bytes
  pub format_column_name : Bytes → Result Bytes
  pub format_placeholder : ℕ → Bytes
  pub format_string_literal : Bytes → Bytes
  pub max_args : ℕ
  pub substitute_placeholders : Bytes → List Value → Bytes × List Error
