-- ===== src/Sqlite3/Tests.antt =====
-- Runs of the SQLite driver over a small database.
pub mod World
pub mod Runs
pub mod Params
pub mod Inputs
