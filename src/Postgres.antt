-- ===== src/Postgres.antt =====
-- The driver package pqconn.
pub mod Words
pub mod Formatter
pub mod ReadBack
pub mod Builder
