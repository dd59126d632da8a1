-- ===== src/Sqlite.antt =====
-- The driver package sqliteconn.
pub mod Formatter
pub mod Builder
