-- ===== src/Db.antt =====
-- The package db: connections and transactions that are passed on in a context.
pub mod Context
pub mod Transaction
pub mod Serialized
pub mod Savepoint
