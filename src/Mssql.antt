-- ===== src/Mssql.antt =====
-- The driver package mssqlconn.
pub mod Words
pub mod Formatter
pub mod ReadBack
pub mod Builder
