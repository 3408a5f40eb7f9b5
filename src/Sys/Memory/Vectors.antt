-- ===== src/Sys/Memory/Vectors.antt =====
-- duckdb/duckdbsys/load.go: the strings of a vector, read back from what DuckDB lays out.
use purego_gen.Prelude.{
  ℕ, ◌+◌, ◌*◌, ◌%◌, ◌^◌, ◌≤◌, ◌<◌, ◌≡◌, ap, ◌∙◌, subst, ◌⊎◌, inl, inr, leb, Bool, true, false, refl,
  Bool-cases, if◌then◌else◌, arith, length,
}
use purego_gen.Prelude.Text.{Text}
use purego_gen.Sys.Memory.{
  Memory, bytes_at, from_bytes, inline_limit, element, read_string_from_vector,
}
use purego_gen.Sys.Memory.Bytes.{
  write, bytes_at-write, bytes_at-write_apart, to_bytes, length-to_bytes, from_bytes-to_bytes,
}

-- The layout of duckdb_string_t in duckdb.h: four bytes of length, then up to twelve of the text, or, for
-- a longer one, a pointer to it in the last eight; the four between are not read.
abbrev pub store_inline : Memory → ℕ → Text → Memory
store_inline m p t = write (write m p (to_bytes 4 (length t))) (p + 4) t

abbrev pub store_pointer : Memory → ℕ → ℕ → Text → Memory
store_pointer m p q t = write (write (write m p (to_bytes 4 (length t))) (p + 8) (to_bytes 8 q)) q t

abbrev pub store : Memory → ℕ → ℕ → Text → Memory
store m p q t = if leb (length t) 12 then store_inline m p t else store_pointer m p q t

read_number : (m : Memory) (p w n : ℕ) → bytes_at (write m p (to_bytes w n)) p w ≡ to_bytes w n
read_number m p w n =
    subst (λ k. bytes_at (write m p (to_bytes w n)) p k ≡ to_bytes w n) (length-to_bytes w n)
      (bytes_at-write m p (to_bytes w n))

element_lem : (base row : ℕ) → base + row * 16 < 2 ^ 64 → element base row ≡ base + row * 16
unfolding element
element_lem base row h = ground (arith)

module _ (m : Memory) (p : ℕ) (t : Text) (short : length t < 4294967296) where
  -- The length, and the text, of an inline string.
  inline_length : from_bytes (bytes_at (store_inline m p t) p 4) ≡ length t
  inline_length =
      ap from_bytes (
        bytes_at-write_apart (write m p (to_bytes 4 (length t))) p 4 (p + 4) t (omega arith)
        ∙ read_number m p 4 (length t))
      ∙ from_bytes-to_bytes 4 (length t) short

  -- The text of a longer one lies elsewhere.
  module _ (q : ℕ) (small : q < 18446744073709551616)
      (apart : (q + length t ≤ p) ⊎ (p + 16 ≤ q)) where
    abbrev with_length : Memory
    with_length = write m p (to_bytes 4 (length t))

    abbrev with_pointer : Memory
    with_pointer = write with_length (p + 8) (to_bytes 8 q)

    pointer_length : from_bytes (bytes_at (store_pointer m p q t) p 4) ≡ length t
    pointer_length =
        ap from_bytes (
          bytes_at-write_apart with_pointer p 4 q t (ground arith)
          ∙ bytes_at-write_apart with_length p 4 (p + 8) (to_bytes 8 q) (omega arith)
          ∙ read_number m p 4 (length t))
        ∙ from_bytes-to_bytes 4 (length t) short

    pointer_read : from_bytes (bytes_at (store_pointer m p q t) (p + 8) 8) ≡ q
    pointer_read =
        ap from_bytes (
          bytes_at-write_apart with_pointer (p + 8) 8 q t (ground arith)
          ∙ read_number with_length (p + 8) 8 q)
        ∙ from_bytes-to_bytes 8 q small

-- The same layout, as what can be read: the length, and the text inline or at the pointer.
abbrev pub HasText : Memory → ℕ → Text → Bool → Type 0
HasText m p t true = bytes_at m (p + 4) (length t) ≡ t
HasText m p t false =
    (q : ℕ) × (q < 18446744073709551616)
    × (bytes_at m (p + 8) 8 ≡ to_bytes 8 q)
    × (bytes_at m q (length t) ≡ t)

abbrev pub IsString : Memory → ℕ → ℕ → Text → Type 0
IsString m base row t =
    (length t < 4294967296)
    × (bytes_at m ((base + row * 16) % 2 ^ 64) 4 ≡ to_bytes 4 (length t))
    × HasText m ((base + row * 16) % 2 ^ 64) t (leb (length t) 12)

read_as :
    (m : Memory) (base row : ℕ) (t : Text) (b : Bool)
    → leb (length t) inline_limit ≡ b
    → from_bytes (bytes_at m (element base row) 4) ≡ length t
    → HasText m (element base row) t b
    → read_string_from_vector m base row ≡ t
unfolding read_string_from_vector
read_as m base row t true e l h = rw l (rw e h)
read_as m base row t false e l (q, small, pointer, text) =
    rw l (rw e (rw (ap from_bytes pointer ∙ from_bytes-to_bytes 8 q small) text))

pub read_string-IsString :
    (m : Memory) (base row : ℕ) (t : Text)
    → IsString m base row t
    → read_string_from_vector m base row ≡ t
unfolding element
read_string-IsString m base row t h =
    read_as m base row t (leb (length t) 12) refl
      (ap from_bytes h.1 ∙ from_bytes-to_bytes 4 (length t) h.0) h.2

-- A string in a vector is read back, inline or by its pointer: for the element of any row below the end of
-- the address space, a text of less than 2^32 bytes, and a place for a longer text that does not overlap
-- the element.
pub read_string-store :
    (m : Memory) (base row q : ℕ) (t : Text)
    → base + row * 16 < 18446744073709551616
    → length t < 4294967296
    → q < 18446744073709551616
    → (q + length t ≤ base + row * 16) ⊎ (base + row * 16 + 16 ≤ q)
    → read_string_from_vector (store m (base + row * 16) q t) base row ≡ t
unfolding read_string_from_vector
read_string-store m base row q t end short small apart =
    let p = base + row * 16 in
    elim (Bool-cases (leb (length t) inline_limit)) [
      | inl fits ↦ rw fits (
          rw (element_lem base row end) (
            rw (inline_length m p t short)
              (rw fits (bytes_at-write (write m p (to_bytes 4 (length t))) (p + 4) t))))
      | inr long ↦ rw long (
          rw (element_lem base row end) (
            rw (pointer_length m p t short q small apart)
              (rw long (rw (pointer_read m p t short q small apart) (bytes_at-write _ q t)))))
    ]
