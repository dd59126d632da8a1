-- ===== src/Tests/Names.antt =====
-- Formatted names at concrete inputs: plain ones, a reserved word, one with a quote, with a schema.
use go_sqldb.Prelude.{ℕ, true, ◌||◌, none, ok, Bytes, ◌==◌}
use go_sqldb.Postgres.Formatter as PostgresFormatter
