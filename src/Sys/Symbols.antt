-- ===== src/Sys/Symbols.antt =====
-- The C functions that the two packages bind.
pub mod Sqlite
pub mod Duck
pub mod DuckMore
