-- ===== src/Oracle.antt =====
-- The driver package oraconn.
pub mod Words
pub mod Formatter
pub mod Builder
