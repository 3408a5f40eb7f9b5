-- ===== src/Sys.antt =====
-- sqlite3/sqlite3sys and duckdb/duckdbsys: what stands between the drivers and the C libraries.
pub mod Memory
pub mod Symbols
pub mod Wrappers
pub mod Load
pub mod Calls
