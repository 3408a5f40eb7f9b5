-- ===== src/Duckdb/Tests.antt =====
-- Runs of the DuckDB driver over a small library.
pub mod World
pub mod Runs
pub mod Inputs
