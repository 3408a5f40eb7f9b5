-- ===== src/Duckdb.antt =====
-- duckdb/duckdb.go: the database/sql driver for DuckDB.
pub mod Extern
pub mod State
pub mod Values
pub mod Types
pub mod Vectors
pub mod Numbers
pub mod Stmt
pub mod Conn
pub mod Rows
pub mod Tests
