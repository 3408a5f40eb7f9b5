-- ===== src/Duckdb/Tests/Inputs.antt =====
-- Concrete timestamps, 128-bit integers and decimals.
use purego_gen.Prelude.{ℕ, ◌*◌, ◌≡◌, arith}
use purego_gen.Prelude.Int.{pos, negsuc}
use purego_gen.Prelude.Decimal.{value}
use purego_gen.Duckdb.Numbers.{timestamp_parts, timestamp_from, hugeint_to_string}
use purego_gen.Duckdb.Numbers.Timestamps.{WholeMicros, timestamp_round_trip}
use purego_gen.Duckdb.Numbers.Hugeints.{value-hugeint_to_string}

timestamp_round_trip_example :
    (k : ℕ) × WholeMicros (timestamp_parts (negsuc 0)).1 k
    × (timestamp_from (timestamp_parts (negsuc 0)).0 (k * 1000) ≡ negsuc 0)
timestamp_round_trip_example = timestamp_round_trip (negsuc 0) (omega arith)

value-hugeint_to_string_example : value (hugeint_to_string (pos 1) 0) ≡ 100000000000000000000
value-hugeint_to_string_example = value-hugeint_to_string 1 0 (omega arith) (omega arith)
