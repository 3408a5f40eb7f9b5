-- ===== src/Duckdb/Rows.antt =====
-- duckdb.go: the methods of DuckDBRows, and how a value is read from the memory of a chunk.
pub mod Lifecycle
pub mod Ends
pub mod Order
use purego_gen.Prelude.{
  ℕ, zero, suc, ◌+◌, ◌/◌, ◌%◌, ◌^◌, Bool, true, false, not, ◌&&◌, List, [], ◌∷◌, ◌++◌, Option, none,
  some, ltb, ◌==◌, if◌then◌else◌, get_elem?,
}
use purego_gen.Prelude.Int.{ℤ, pos, ◌*ℤ◌, quot, rem, signed}
use purego_gen.Prelude.Text.{Text, codes}
use purego_gen.Prelude.Decimal.{print}
use purego_gen.Go.{Value, eof}
use purego_gen.Go.Exec.{Exec, Outcome, ok, err, panics, diverges}
use purego_gen.Sqlite3.Extern.{Handle}
use purego_gen.Duckdb.Extern.{Extern}
use purego_gen.Duckdb.State.{Rows, StmtEnv, RowsEnv}
use purego_gen.Duckdb.Numbers.{timestamp_parts, hugeint_to_string, decimal_text}
use purego_gen.Duckdb.Vectors.{is_null, element, text_element, blob_element}
use purego_gen.Duckdb.Stmt.{close_stmt}
use purego_gen.Duckdb.Types.{ColumnType, column_type}

abbrev text_of : Outcome Text → Outcome Value
text_of (ok t) = ok (Value.string t)
text_of (err e) = err e
text_of panics = panics
text_of diverges = diverges

-- A Hugeint of the given 128 bits: `upper` above `lower`.
abbrev hugeint_text : ℕ → Text
hugeint_text n = hugeint_to_string (signed 64 (n / 2 ^ 64)) (n % 2 ^ 64)

abbrev scaled : ℤ → ℕ → Outcome Value
scaled value scale =
    if scale == 0 then ok (Value.int64 value) else text_of (decimal_text value scale)

module _ {S : Type 0} (x : Extern S) where
  -- The switch of readDecimalValue on the logical type of the column.
  unfoldable pub read_decimal : ColumnType → ℕ → ℕ → ℕ → S → Outcome Value
  unfolding decimal_text hugeint_to_string
  read_decimal ColumnType.smallint c col row s =
      scaled (signed 16 (element x 2 c col row s)) (x.decimal_scale c col s)
  read_decimal ColumnType.integer c col row s =
      scaled (signed 32 (element x 4 c col row s)) (x.decimal_scale c col s)
  read_decimal ColumnType.bigint c col row s =
      scaled (signed 64 (element x 8 c col row s)) (x.decimal_scale c col s)
  read_decimal ColumnType.hugeint c col row s =
      ok (Value.string (hugeint_text (element x 16 c col row s)))
  read_decimal _ c col row s = ok (Value.string (codes "0"))

  abbrev unix_parts : ℤ × ℤ → Value
  unix_parts (seconds, nanos) = Value.time (x.time_unix seconds nanos)

  -- The switch of readValue; `code` is the number of the type.
  unfoldable pub read_typed : ColumnType → ℕ → ℕ → ℕ → ℕ → S → Outcome Value
  unfolding timestamp_parts column_type hugeint_to_string
  read_typed ColumnType.boolean code c col row s =
      ok (Value.bool (not (element x 1 c col row s == 0)))
  read_typed ColumnType.tinyint code c col row s =
      ok (Value.int64 (signed 8 (element x 1 c col row s)))
  read_typed ColumnType.smallint code c col row s =
      ok (Value.int64 (signed 16 (element x 2 c col row s)))
  read_typed ColumnType.integer code c col row s =
      ok (Value.int64 (signed 32 (element x 4 c col row s)))
  read_typed ColumnType.bigint code c col row s =
      ok (Value.int64 (signed 64 (element x 8 c col row s)))
  read_typed ColumnType.utinyint code c col row s = ok (Value.int64 (pos (element x 1 c col row s)))
  read_typed ColumnType.usmallint code c col row s =
      ok (Value.int64 (pos (element x 2 c col row s)))
  read_typed ColumnType.uinteger code c col row s = ok (Value.int64 (pos (element x 4 c col row s)))
  read_typed ColumnType.ubigint code c col row s =
      ok (Value.int64 (signed 64 (element x 8 c col row s)))
  read_typed ColumnType.float code c col row s =
      ok (Value.float64 (x.widen (element x 4 c col row s)))
  read_typed ColumnType.double code c col row s = ok (Value.float64 (element x 8 c col row s))
  read_typed ColumnType.varchar code c col row s = ok (Value.string (text_element x c col row s))
  read_typed ColumnType.blob code c col row s = ok (Value.bytes (blob_element x c col row s))
  read_typed ColumnType.timestamp code c col row s =
      ok (unix_parts (timestamp_parts (signed 64 (element x 8 c col row s))))
  read_typed ColumnType.timestamp_tz code c col row s =
      ok (unix_parts (timestamp_parts (signed 64 (element x 8 c col row s))))
  read_typed ColumnType.timestamp_s code c col row s =
      ok (unix_parts (signed 64 (element x 8 c col row s), pos 0))
  read_typed ColumnType.timestamp_ms code c col row s =
      let millis = signed 64 (element x 8 c col row s) in
      ok (unix_parts (quot millis 1000, rem millis 1000 *ℤ pos 1000000))
  read_typed ColumnType.timestamp_ns code c col row s =
      ok (unix_parts (pos 0, signed 64 (element x 8 c col row s)))
  read_typed ColumnType.date code c col row s =
      ok (Value.time (x.date_of (element x 4 c col row s)))
  read_typed ColumnType.clock code c col row s =
      ok (Value.time (x.time_of (element x 8 c col row s)))
  read_typed ColumnType.clock_tz code c col row s =
      ok (Value.time (x.time_of (element x 8 c col row s)))
  read_typed ColumnType.hugeint code c col row s =
      ok (Value.string (hugeint_text (element x 16 c col row s)))
  read_typed ColumnType.decimal code c col row s =
      read_decimal (column_type (x.logical_type c col s)) c col row s
  read_typed _ code c col row s = ok (Value.string (codes "unsupported type " ++ print code))

  abbrev pub with_type : Option ℕ → ℕ → ℕ → ℕ → S → Outcome Value
  with_type none c col row s = panics
  with_type (some code) c col row s = read_typed (column_type code) code c col row s

  unfoldable pub read_value : List ℕ → ℕ → ℕ → ℕ → S → Outcome Value
  read_value types c col row s =
      if is_null x c col row s then ok Value.nil else with_type (get_elem? types col) c col row s

  abbrev pub cons_value : Outcome Value → Outcome (List Value) → Outcome (List Value)
  cons_value (ok v) (ok vs) = ok (v ∷ vs)
  cons_value (ok v) r = r
  cons_value (err e) r = err e
  cons_value panics r = panics
  cons_value diverges r = diverges

  -- `count` columns from `col` on.
  unfoldable pub read_row : List ℕ → ℕ → ℕ → ℕ → ℕ → S → Outcome (List Value)
  read_row types c row col zero s = ok []
  read_row types c row col (suc count) s =
      cons_value (read_value types c col row s) (read_row types c row (col + 1) count s)

  abbrev pub destroyed : Handle → S → S
  destroyed none s = s
  destroyed (some c) s = x.destroy_chunk c s

  abbrev pub set_lib : S → RowsEnv S → RowsEnv S
  set_lib s e = record e {
    stmt_env = record e.stmt_env { env = record e.stmt_env.env { lib = s } };
  }

  unfoldable pub destroy_chunk : RowsEnv S → RowsEnv S
  destroy_chunk e = record (set_lib (destroyed e.rows.chunk e.lib) e) {
    rows = record e.rows { chunk = none };
  }

  abbrev close_owned : Bool → StmtEnv S → StmtEnv S
  close_owned true v = (close_stmt x v).1
  close_owned false v = v

  abbrev pub destroy_result : RowsEnv S → RowsEnv S
  destroy_result e = set_lib (x.destroy_result e.rows.result e.lib) e

  abbrev pub close_stmt_of : RowsEnv S → RowsEnv S
  close_stmt_of e = record e { stmt_env = close_owned e.stmt.ephemeral e.stmt_env }

  -- Close returns nil, as Close of a statement does.
  unfoldable pub close_rows : RowsEnv S → RowsEnv S
  close_rows e =
      if e.rows.once
      then e
      else close_stmt_of (
          destroy_result
            (destroy_chunk (record e { rows = record e.rows { once = true; rows_closed = true } })))

  abbrev row_in : Handle → ℕ → ℕ → Bool
  row_in none row size = false
  row_in (some c) row size = ltb row size

  abbrev pub has_row : Rows → Bool
  has_row r = row_in r.chunk r.chunk_row r.chunk_size

  -- A row read: the values go to `dest`, and the next row is the current one.
  abbrev pub after_row : Outcome (List Value) → RowsEnv S → Outcome (List Value) × RowsEnv S
  after_row (ok vs) e =
      (ok vs, record e { rows = record e.rows { chunk_row = e.rows.chunk_row + 1 } })
  after_row r e = (r, e)

  abbrev chunk_or_zero : Handle → ℕ
  chunk_or_zero none = 0
  chunk_or_zero (some c) = c

  -- The next chunk is fetched into the rows.
  unfoldable pub fetch : RowsEnv S → RowsEnv S
  fetch e =
      let r = x.fetch_chunk e.rows.result e.lib in
      record (set_lib r.1 e) { rows = record e.rows { chunk = r.0 } }

  abbrev pub measured : ℕ → RowsEnv S → RowsEnv S
  measured c e = record e {
    rows = record e.rows { chunk_size = x.chunk_size c e.lib; chunk_row = 0 };
  }

  -- What follows FetchChunk: the end of the rows, or another round of the loop.
  abbrev pub after_fetch :
      Handle → RowsEnv S → (ℕ → Outcome (List Value) × RowsEnv S) → Outcome (List Value) × RowsEnv S
  after_fetch none e again = (err eof, close_rows e)
  after_fetch (some c) e again =
      if x.chunk_size c e.lib == 0
      then (err eof, close_rows (destroy_chunk (measured c e)))
      else again c

  abbrev pub current_row : RowsEnv S → Outcome (List Value)
  current_row e =
      read_row e.rows.types (chunk_or_zero e.rows.chunk) e.rows.chunk_row 0 e.rows.column_count
        e.lib

  -- The fuel counts the rounds of the loop.
  unfoldable pub next_loop : ℕ → Exec (RowsEnv S) (List Value)
  next_loop zero e = (diverges, e)
  next_loop (suc fuel) e =
      let fetched = fetch (destroy_chunk e) in
      let again = λ (c : ℕ). next_loop fuel (measured c fetched) in
      if has_row e.rows
      then after_row (current_row e) e
      else after_fetch fetched.rows.chunk fetched again

  -- Two rounds are enough: after a fetch there is a row.
  unfoldable pub next : Exec (RowsEnv S) (List Value)
  next e = if e.rows.rows_closed then (err eof, e) else next_loop 2 e
