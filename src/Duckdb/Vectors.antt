-- ===== src/Duckdb/Vectors.antt =====
-- duckdb.go: the elements of a vector, read from its memory.
pub mod Values
use purego_gen.Prelude.{ℕ, ◌+◌, ◌*◌, ◌%◌, ◌^◌, Bool, false, not, Option, none, some}
use purego_gen.Prelude.Text.{Text}
use purego_gen.Sys.Memory.{bytes_at, from_bytes, read_string_from_vector, read_blob_from_vector}
use purego_gen.Duckdb.Extern.{Extern}

-- vectorPtr
unfoldable pub vector_ptr : ℕ → ℕ → ℕ
vector_ptr address offset = (address + offset) % 2 ^ 64

module _ {S : Type 0} (x : Extern S) where
  abbrev pub row_is_null : Option ℕ → ℕ → S → Bool
  row_is_null none row s = false
  row_is_null (some v) row s = not (x.row_is_valid v row s)

  -- The column is of the chunk `c`.
  unfoldable pub is_null : ℕ → ℕ → ℕ → S → Bool
  is_null c col row s = row_is_null (x.vector_validity c col s) row s

  -- The bits of the element of a row, for elements of a size in bytes.
  unfoldable pub element : ℕ → ℕ → ℕ → ℕ → S → ℕ
  unfolding vector_ptr bytes_at from_bytes
  element size c col row s =
      from_bytes (bytes_at (x.memory s) (vector_ptr (x.vector_data c col s) (row * size)) size)

  unfoldable pub text_element : ℕ → ℕ → ℕ → S → Text
  unfolding read_string_from_vector
  text_element c col row s = read_string_from_vector (x.memory s) (x.vector_data c col s) row

  unfoldable pub blob_element : ℕ → ℕ → ℕ → S → Option Text
  unfolding read_blob_from_vector
  blob_element c col row s = read_blob_from_vector (x.memory s) (x.vector_data c col s) row
