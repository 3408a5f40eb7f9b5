-- ===== src/Sqlite3.antt =====
-- sqlite3/sqlite3.go: the database/sql driver over the SQLite library.
pub mod Codes
pub mod Extern
pub mod Errors
pub mod State
pub mod Values
pub mod TimeText
pub mod Bind
pub mod Stmt
pub mod Conn
pub mod Rows
pub mod Registry
pub mod Functions
pub mod Hooks
pub mod Dsn
pub mod Tests
