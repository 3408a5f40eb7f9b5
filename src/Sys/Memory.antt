-- ===== src/Sys/Memory.antt =====
-- C memory as Go code reads it, a byte at an address. sqlite3/sqlite3sys/load.go, generated.go,
-- sqlite3/sqlite3.go and duckdb/duckdbsys/load.go and generated.go: strings and bytes at a pointer.
pub mod Bytes
pub mod Strings
pub mod Vectors
pub mod Tests
use purego_gen.Prelude.{
  ℕ, zero, suc, ◌+◌, ◌*◌, ◌%◌, ◌^◌, List, [], ◌∷◌, ◌++◌, Option, none, some, leb, ◌==◌,
  if◌then◌else◌,
}
use purego_gen.Prelude.Int.{ℤ, pos, negsuc}
use purego_gen.Prelude.Text.{Text}

abbrev pub Memory : Type 0
Memory = ℕ → ℕ

-- unsafe.Slice of n bytes.
unfoldable pub bytes_at : Memory → ℕ → ℕ → Text
bytes_at m p zero = []
bytes_at m p (suc n) = m p ∷ bytes_at m (p + 1) n

-- The loop that counts the bytes before the first zero byte. It has no bound in the source.
unfoldable pub scan : ℕ → Memory → ℕ → ℕ → Option ℕ
scan zero m p n = none
scan (suc fuel) m p n = let more = scan fuel m p (n + 1) in if m (p + n) == 0 then some n else more

abbrev pub read_found : Memory → ℕ → Option ℕ → Option Text
unfolding bytes_at
read_found m p none = none
read_found m p (some n) = some (bytes_at m p n)

-- gostring, and ptrToString of the driver.
unfoldable pub gostring : ℕ → Memory → ℕ → Option Text
unfolding scan read_found
gostring fuel m p = if p == 0 then some [] else read_found m p (scan fuel m p 0)

abbrev pub go_string_max_len : ℕ
go_string_max_len = 1073741824

-- The loop of goString, for as many bytes as are left of the maximum.
unfoldable pub scan_max : ℕ → Memory → ℕ → ℕ → ℕ
scan_max zero m p n = n
scan_max (suc left) m p n =
    let more = scan_max left m p (n + 1) in if m (p + n) == 0 then n else more

-- goString, with the maximum as an argument.
unfoldable pub go_string_within : ℕ → Memory → ℕ → Text
unfolding scan_max bytes_at
go_string_within max m p = if p == 0 then [] else bytes_at m p (scan_max max m p 0)

unfoldable pub go_string : Memory → ℕ → Text
unfolding go_string_within
go_string m p = go_string_within go_string_max_len m p

-- rawBytes and copyBytes: nil for NULL, and for a length that is not positive.
unfoldable pub copy_bytes : Memory → ℕ → ℤ → Option Text
unfolding bytes_at
copy_bytes m p (pos zero) = none
copy_bytes m p (pos (suc n)) = if p == 0 then none else some (bytes_at m p (suc n))
copy_bytes m p (negsuc n) = none

-- cStringPtr: a copy of a text, with a zero byte behind it.
unfoldable pub c_string : Text → Text
c_string s = s ++ 0 ∷ []

-- A little-endian number.
unfoldable pub from_bytes : List ℕ → ℕ
from_bytes [] = 0
from_bytes (b ∷ bs) = b + 256 * from_bytes bs

abbrev pub inline_limit : ℕ
inline_limit = 12

-- The 16 bytes of a duckdb_string_t: its length, and the text itself or a pointer to it.
unfoldable pub element : ℕ → ℕ → ℕ
element base row = (base + row * 16) % 2 ^ 64

unfoldable pub read_string_from_vector : Memory → ℕ → ℕ → Text
unfolding bytes_at from_bytes element
read_string_from_vector m base row =
    let p = element base row in
    let length = from_bytes (bytes_at m p 4) in
    if leb length inline_limit
    then bytes_at m (p + 4) length
    else bytes_at m (from_bytes (bytes_at m (p + 8) 8)) length

-- ReadBlobFromVector copies the bytes, and is never nil.
unfoldable pub read_blob_from_vector : Memory → ℕ → ℕ → Option Text
unfolding read_string_from_vector
read_blob_from_vector m base row = some (read_string_from_vector m base row)
