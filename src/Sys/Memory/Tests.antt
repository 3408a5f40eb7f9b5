-- ===== src/Sys/Memory/Tests.antt =====
-- Strings in a memory that is empty otherwise.
use purego_gen.Prelude.{◌+◌, ◌*◌, ◌≡◌, refl, some, inr, arith}
use purego_gen.Prelude.Text.{codes}
use purego_gen.Prelude.Int.{pos}
use purego_gen.Sys.Memory.{
  Memory, gostring, go_string_within, c_string, copy_bytes, read_string_from_vector,
  read_blob_from_vector,
}
use purego_gen.Sys.Memory.Bytes.{write, to_bytes}
use purego_gen.Sys.Memory.Strings.{gostring-c_string}
use purego_gen.Sys.Memory.Vectors.{store, read_string-store}

abbrev empty_memory : Memory
empty_memory a = 0

name_of_database :
    (gostring 10 (write empty_memory 100 (c_string (codes "main"))) 100 ≡ some (codes "main"))
    × (go_string_within 4 (write empty_memory 100 (c_string (codes "main"))) 100 ≡ codes "main")
name_of_database =
    gostring-c_string empty_memory 100 (codes "main") 10 4 (omega arith) (omega arith) (omega arith)
      (omega arith)

long_string :
    read_string_from_vector
      (store empty_memory (1000 + 2 * 16) 5000 (codes "a longer string"))
      1000
      2
    ≡ codes "a longer string"
long_string =
    read_string-store empty_memory 1000 2 5000 (codes "a longer string") (omega arith) (omega arith)
      (omega arith) (inr (omega arith))

inline_blob :
    read_blob_from_vector (store empty_memory 1032 5000 (codes "short")) 1000 2
    ≡ some (codes "short")
unfolding read_blob_from_vector write to_bytes
inline_blob = refl

copied : copy_bytes (write empty_memory 7 (codes "ab")) 7 (pos 2) ≡ some (codes "ab")
unfolding copy_bytes write
copied = refl
