-- ===== src/Update/Atomic.antt =====
-- `UpdateRowStructs` of update.go in a transaction.
