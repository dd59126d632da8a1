-- ===== src/Lib.antt =====
-- A verification library of go-sqldb, the SQL library of the repository's root directory.
--
-- The program writes SQL queries for structs and values, formats queries with their arguments
-- for logs, and runs functions in transactions. A `QueryFormatter` says how a database writes
-- names, placeholders and literals; a `QueryBuilder` writes the statements with it; the functions
-- of the root package reflect a struct, ask a builder for the query and run it on a `Connection`;
-- package db does so with the connection of a context. Rows that a query returns are scanned into
-- values, the errors of the databases are told apart, and pqconn listens to notifications.
--
-- Files, and the code that they model:
-- - Prelude: shared names, Boolean tests on numbers, lists, byte texts, errors and results.
-- - Quoting: `QuoteStringLiteral` (format.go) and what the functions `EscapeIdentifier` of the
--   drivers have in common. ReadBack and Identifier hold the round trips with a lexer, which is
--   described apart from the code: its quotes, how it folds letters, and its key words.
-- - Value: query arguments, `FormatValue` (format.go) and `KeepSecret` (secret.go).
-- - Formatter: queryformatter.go, with the name patterns (Names), decimal numbers (Placeholder),
--   `SubstitutePlaceholders` of format.go (Substitute), the quoting formatters' names (Quoted) and
--   `StdQueryFormatter` (Std).
-- - Postgres, Mysql, Mssql, Oracle, Sqlite: the file queryformatter.go of pqconn, mysqlconn,
--   mssqlconn, oraconn and sqliteconn (Words, Formatter) and querybuilder.go of postgres and of the
--   same directories (Builder). ReadBack and Literal hold round trips, Builder.Refines the texts.
--   Oracle stores names without quotes in upper case, so it has no read-back of names.
-- - Space: what the builders and sqliteconn/errors.go use of Go's package strings.
-- - Builder: the interfaces of querybuilder.go, its loops over columns (Loops), values.go (Values),
--   `StdQueryBuilder` and `StdReturningQueryBuilder` (Std). Statement is the abstract
--   specification: statements as data with their text. Bindings and Upsert carry the proofs.
-- - Transaction: transaction.go over the interface `Connection` of connection.go. Options,
--   Atomicity and Calls hold its theorems.
-- - Db: db/context.go (Context) and db/transaction.go (Transaction, Serialized, Savepoint).
-- - Action: functions on the world that may fail, for code that returns early on an error.
-- - Insert: insert.go, with the batches, the query cache and `WrapErrorWithQuery` of errors.go;
--   Run has the functions, Rows lemmas, Batches, Cache, Delivery and Atomic the theorems.
--   Succeeds and Executed say what was done by a call that returns no error.
-- - Rows: what `UpdateRowStruct`, `UpsertRowStruct` and `DeleteRowStruct` have in common, with
--   their ...Stmt and ...Structs functions, over a record of what differs. Cache, Loop, Atomic
--   and Executed hold its theorems, which the three instances apply.
-- - Update: update.go; Run has the functions, Reorder, Cache, Unwrapped and Atomic the
--   theorems.
-- - Upsert, Delete: upsert.go and delete.go; Results has the theorems, Delete.Missing those on a row
--   that is not found.
-- - Query: query.go with row.go over the interface of rows.go. Finish is about closing the rows and
--   the error that is returned. Outcome, Answer and Complete are about the functions that return all
--   rows, Single about a single row, with its default (Default) and the cache of `QueryRowStruct`
--   (Keyed), Callback about the functions that call a function for every row, with what their loop
--   does (Ends).
-- - Scan: `ScanDriverValue` and `scanStringInto` of scan.go, which store a value of the driver in a
--   destination. Bounds is about integers of fewer bits, Decimal about integers as texts.
-- - Errors: errors.go, with `errors.Is` and `errors.As` over its types (Walk), and the file errors.go
--   of pqconn, mysqlconn, mssqlconn, oraconn and sqliteconn (Postgres, Mysql, Mssql, Oracle, Sqlite).
--   Messages cuts the constraint's name out of a server's message; Postgres.Agreed, Mysql.Told and
--   Sqlite.Classified hold theorems.
-- - Listener: pqconn/listener.go. Callbacks has the maps of callbacks, Methods each method from
--   start to end, Schedule the same methods as steps of goroutines that take turns, whose locked
--   parts are the functions of Listener. Keeps, Conserved, Drain and Closed are about all orders of
--   steps, Stranded about one of them, and Behaviour about single methods.
-- - Tests: the theorems at concrete inputs.
--
-- A text is a list of bytes, and the program's own texts are ASCII; `strings.ToLower` is modelled
-- at the ASCII letters, which is where the reserved words lie. An error is a value with what it
-- wraps; its message is left out. The world of a transaction is the store of the database, which
-- only the parameters of a `Connection` change, and the counters of transactions and savepoints.
-- A panic of the caller's function is an outcome; runtime.Goexit and cancelled contexts are left
-- out, and so are nil arguments. Go's maps are association lists, in any order. A number of an `int`
-- is not bounded outside of Scan: the model follows the code where len and the product of rows and
-- columns fit.
-- In the errors of the drivers the error of the database driver is a parameter: its codes are the
-- constructors of a type, or the numbers of the source with a constructor for all others. In the
-- listener `pq.Listener` is a parameter, a callback is a number, and which callbacks panic is a
-- parameter; a goroutine may step between two locked parts of a method and before a started
-- callback runs, so a method that waits for its goroutines ends when their list is empty. Three parts
-- are one step each though the source holds no lock in them: the test of the stop channel with the
-- call of `pq.Listener` behind it, the closing of that channel and of the connection, and the
-- subscriptions after a reconnect. A map of callbacks is an association list, and
-- the loops over it run in its order.
-- Rows are read through a parameter that may fail, give rows without end or lose its context at any
-- time; a loop over rows with a limit has fuel for one row more than the limit, which is enough, and
-- a loop without a limit takes fuel for more rows than are left.
-- All other loops are structural recursions on lists or on the number of rounds, so no fuel is
-- needed, except for the decimal digits of a number, which have fuel for as many digits as the number
-- itself is large, and the replacement of placeholders, which runs over the length of the query.
-- Placeholders are not empty. An index out of range, which panics in the reordering of values for an
-- update, is an error there. What fmt.Sprint returns for a value is part of the value, so a secret is
-- one that stands alone or behind a pointer, not inside another struct or slice.
--
-- Not modelled: the connections of the drivers and database/sql, struct reflection, catalog
-- information, configuration, mocks and examples; in scan.go floating point numbers, decimals, times
-- and destinations that scan themselves; of errors.go the texts of the errors, of the driver's errors
-- the classes of PostgreSQL that are asked for but never added; of the listener its intervals, its
-- logger and the map from connections to listeners. The functions of package db on rows call the root
-- package's with the values of the context. The reflection of structs, the connection and
-- `pq.QuoteLiteral` are parameters.
pub mod Prelude
pub mod Quoting
pub mod Value
pub mod Formatter
pub mod Postgres
pub mod Mysql
pub mod Mssql
pub mod Oracle
pub mod Sqlite
pub mod Space
pub mod Builder
pub mod Transaction
pub mod Db
pub mod Action
pub mod Insert
pub mod Update
pub mod Rows
pub mod Upsert
pub mod Delete
pub mod Listener
pub mod Query
pub mod Scan
pub mod Errors
pub mod Tests
