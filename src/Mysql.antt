-- ===== src/Mysql.antt =====
-- The driver package mysqlconn.
pub mod Words
pub mod Formatter
pub mod ReadBack
pub mod Literal
pub mod Builder
