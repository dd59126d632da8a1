-- ===== src/Tests.antt =====
-- The theorems at concrete inputs.
mod Names
mod Literals
mod Queries
mod Transactions
mod Inserts
mod Savepoints
mod Updates
mod Deletes
mod Notifications
mod Errors
mod Reading
mod Scanning
