-- ===== src/Duckdb/Vectors/Values.antt =====
-- duckdb.go: the rows of a chunk, read from a memory in which DuckDB has laid out their values.
use purego_gen.Prelude.{
  ℕ, ◌+◌, ◌-◌, ◌*◌, ◌%◌, ◌^◌, ◌<◌, ◌≡◌, Bool, true, false, List, [], ◌∷◌, some, if◌then◌else◌,
  get_elem?,
}
use purego_gen.Prelude.Int.{ℤ, pos, negsuc, bits, signed}
use purego_gen.Prelude.Text.{Text}
use purego_gen.Go.{Value}
use purego_gen.Sys.Memory.{Memory, bytes_at}
use purego_gen.Sys.Memory.Bytes.{to_bytes}
use purego_gen.Sys.Memory.Vectors.{IsString}
use purego_gen.Duckdb.Extern.{Extern}
use purego_gen.Duckdb.Types.{
  boolean, tinyint, smallint, integer, bigint, utinyint, usmallint, uinteger, ubigint, double,
  varchar, column_type,
}
use purego_gen.Duckdb.Vectors.{is_null}

-- The value of a column in a row.
pub data Cell : Type 0 where
  null : ℕ → Cell  -- of a column of any type
  bool_cell : Bool → Cell
  int8_cell int16_cell int32_cell int64_cell : ℤ → Cell
  uint8_cell uint16_cell uint32_cell uint64_cell : ℕ → Cell
  double_cell : ℕ → Cell
  text_cell : Text → Cell

abbrev pub IsOfType : Cell → ℕ → Type 0
IsOfType (null k) code = k ≡ code
IsOfType (bool_cell b) code = column_type code ≡ boolean
IsOfType (int8_cell z) code = column_type code ≡ tinyint
IsOfType (int16_cell z) code = column_type code ≡ smallint
IsOfType (int32_cell z) code = column_type code ≡ integer
IsOfType (int64_cell z) code = column_type code ≡ bigint
IsOfType (uint8_cell n) code = column_type code ≡ utinyint
IsOfType (uint16_cell n) code = column_type code ≡ usmallint
IsOfType (uint32_cell n) code = column_type code ≡ uinteger
IsOfType (uint64_cell n) code = column_type code ≡ ubigint
IsOfType (double_cell n) code = column_type code ≡ double
IsOfType (text_cell t) code = column_type code ≡ varchar

-- What the driver is to return for it. A UBIGINT is cut to an int64.
abbrev pub value_of : Cell → Value
value_of (null k) = Value.nil
value_of (bool_cell b) = Value.bool b
value_of (int8_cell z) = Value.int64 z
value_of (int16_cell z) = Value.int64 z
value_of (int32_cell z) = Value.int64 z
value_of (int64_cell z) = Value.int64 z
value_of (uint8_cell n) = Value.int64 (pos n)
value_of (uint16_cell n) = Value.int64 (pos n)
value_of (uint32_cell n) = Value.int64 (pos n)
value_of (uint64_cell n) = Value.int64 (signed 64 n)
value_of (double_cell n) = Value.float64 n
value_of (text_cell t) = Value.string t

abbrev pub FitsIn : ℕ → ℤ → Type 0
FitsIn w (pos n) = n < 2 ^ (w - 1)
FitsIn w (negsuc n) = n < 2 ^ (w - 1)

module _ (m : Memory) (base row : ℕ) where
  -- The bytes of a number, where the element of the row stands.
  abbrev pub HasBytes : ℕ → ℕ → Type 0
  HasBytes size n = bytes_at m ((base + row * size) % 2 ^ 64) size ≡ to_bytes size n

  -- How DuckDB lays a value out.
  abbrev pub HasCell : Cell → Type 0
  HasCell (null k) = Unit
  HasCell (bool_cell b) = HasBytes 1 (if b then 1 else 0)
  HasCell (int8_cell z) = HasBytes 1 (bits 8 z) × FitsIn 8 z
  HasCell (int16_cell z) = HasBytes 2 (bits 16 z) × FitsIn 16 z
  HasCell (int32_cell z) = HasBytes 4 (bits 32 z) × FitsIn 32 z
  HasCell (int64_cell z) = HasBytes 8 (bits 64 z) × FitsIn 64 z
  HasCell (uint8_cell n) = HasBytes 1 n × (n < 2 ^ 8)
  HasCell (uint16_cell n) = HasBytes 2 n × (n < 2 ^ 16)
  HasCell (uint32_cell n) = HasBytes 4 n × (n < 2 ^ 32)
  HasCell (uint64_cell n) = HasBytes 8 n × (n < 2 ^ 64)
  HasCell (double_cell n) = HasBytes 8 n × (n < 2 ^ 64)
  HasCell (text_cell t) = IsString m base row t

abbrev pub is_null_cell : Cell → Bool
is_null_cell (null k) = true
is_null_cell cell = false

module _ {S : Type 0} (x : Extern S) (types : List ℕ) (c row : ℕ) (s : S) where
  -- The columns from `col` on hold these values, in columns of their types.
  abbrev pub HasRow : ℕ → List Cell → Type 0
  HasRow col [] = Unit
  HasRow col (cell ∷ cells) =
      ((code : ℕ) × (get_elem? types col ≡ some code) × IsOfType cell code)
      × (is_null x c col row s ≡ is_null_cell cell)
      × HasCell (x.memory s) (x.vector_data c col s) row cell
      × HasRow (col + 1) cells
