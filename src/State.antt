-- ===== src/State.antt =====
-- internal/state/state.go: the trusted store of requests and grants. `Records` has the records and
-- their table rows, `Tables` the SQL statements on the tables, `Calls` the calls of the database, and
-- `Operations` the methods of Store.
pub mod Records
pub mod Tables
pub mod Calls
pub mod Operations
pub mod Change
pub mod Changes
pub mod History
