-- ===== src/Sys/Calls.antt =====
-- sqlite3/sqlite3sys/db.go, ext.go, bind_column.go, func.go, duckdb/duckdbsys/load.go: the wrappers that do
-- more than pass their arguments on. They copy texts and bytes between Go and C, and free what C
-- has allocated.
pub mod Blocks
pub mod Tests
use purego_gen.Prelude.{
  ℕ, zero, suc, ◌+◌, ◌*◌, ◌%◌, ◌^◌, Bool, true, false, not, ◌&&◌, List, [], ◌∷◌, ◌++◌, Option, none,
  some, ltb, leb, ◌==◌, if◌then◌else◌, length,
}
use purego_gen.Prelude.Int.{ℤ, pos, negsuc, ltb_ℤ, ◌==ℤ◌, to_int32}
use purego_gen.Prelude.Text.{Text, is_empty}
use purego_gen.Sqlite3.Codes.{sqlite_ok}
use purego_gen.Sys.Memory.{Memory, gostring, go_string, copy_bytes, bytes_at, c_string}

-- The C functions behind the wrappers, on a state of the library and of its memory. A text is passed as the
-- address of a C string; the Go copy of it that cStringPtr makes is written by `place`, which also
-- answers its address. `write_at` is `copy` to a slice of C memory.
pub record CLibrary (S : Type 0) : Type 0 where
  pub memory : S → Memory
  pub place : Text → S → ℕ × S
  pub write_at : ℕ → Text → S → S
  pub malloc64 : ℕ → S → ℕ × S
  pub free : ℕ → S → S
  pub serialize : Text → ℕ → S → ℕ × ℤ × S
  pub deserialize : Text → ℕ → ℤ → ℤ → ℕ → S → ℤ × S
  pub expanded_sql : S → ℕ × S
  pub open_v2 : Text → ℤ → ℕ → S → ℤ × S
  pub wal_checkpoint : ℕ → S → ℤ × S
  pub wal_checkpoint_v2 : ℕ → ℤ → S → ℤ × S
  pub load_extension : Text → ℕ → S → ℤ × S
  pub table_column_metadata : Text → Text → Text → S → ℤ × ℕ × ℕ × S
  pub column_blob : ℤ → S → ℕ × S
  pub column_bytes : ℤ → S → ℤ × S

abbrev pub sqlite_nomem : ℤ
sqlite_nomem = pos 7

-- SQLITE_SERIALIZE_NOCOPY and SQLITE_DESERIALIZE_FREEONCLOSE are the lowest bit of the flags.
abbrev pub has_nocopy : ℕ → Bool
has_nocopy flags = flags % 2 == 1

abbrev pub with_freeonclose : ℕ → ℕ
with_freeonclose flags = if flags % 2 == 1 then flags else flags + 1

module _ {S : Type 0} (c : CLibrary S) where
  -- ownedString of duckdbsys, and the generated expanded_sql_string, where the string is read to its zero
  -- byte.
  unfoldable pub owned_string : ℕ → ℕ → S → Option Text × S
  owned_string fuel p s = (gostring fuel (c.memory s) p, if p == 0 then s else c.free p s)

  unfoldable pub expanded_sql : ℕ → S → Option Text × S
  unfolding owned_string
  expanded_sql fuel s = let (p, s') = c.expanded_sql s in owned_string fuel p s'

  abbrev pub free_copied : ℕ → ℕ → S → S
  free_copied flags p s = if has_nocopy flags then s else c.free p s

  -- Serialize: nil for NULL, an empty slice for an empty database, and a copy of the bytes.
  abbrev pub serialized : ℕ → ℕ × ℤ × S → Option Text × S
  serialized flags (p, size, s) =
      if p == 0
      then (none, s)
      else if size ==ℤ pos 0
      then (some [], free_copied flags p s)
      else (copy_bytes (c.memory s) p size, free_copied flags p s)

  unfoldable pub serialize : Text → ℕ → S → Option Text × S
  serialize schema flags s = serialized flags (c.serialize schema flags s)

  abbrev pub deserialized : Text → Text → ℕ → ℕ × S → ℤ × S
  deserialized schema bytes flags (p, s) =
      let size = pos (length bytes) in
      if p == 0 && not (is_empty bytes)
      then (sqlite_nomem, s)
      else c.deserialize schema p size size (with_freeonclose flags)
          (if is_empty bytes then s else c.write_at p bytes s)

  unfoldable pub deserialize : Text → Text → ℕ → S → ℤ × S
  deserialize schema bytes flags s = deserialized schema bytes flags (c.malloc64 (length bytes) s)

  -- NULL for an empty text, else a C string, for the C function that takes either.
  abbrev pub with_text : {A : Type 0} → Text → (ℕ → S → A) → S → A
  with_text t f s = if is_empty t then f 0 s else let (p, s') = c.place t s in f p s'

  unfoldable pub open_v2 : Text → ℤ → Text → S → ℤ × S
  open_v2 filename flags vfs = with_text vfs (c.open_v2 filename flags)

  unfoldable pub wal_checkpoint : Text → S → ℤ × S
  wal_checkpoint db_name = with_text db_name c.wal_checkpoint

  unfoldable pub wal_checkpoint_v2 : Text → ℤ → S → ℤ × S
  wal_checkpoint_v2 db_name mode = with_text db_name (λ p. c.wal_checkpoint_v2 p mode)

  unfoldable pub load_extension : Text → Text → S → ℤ × S
  load_extension file entry = with_text entry (c.load_extension file)

  -- The two texts of TableColumnMetadata, which are read only on success, and the code.
  abbrev pub read_metadata : ℤ × ℕ × ℕ × S → Text × Text × ℤ × S
  read_metadata (rc, p, q, s) =
      if rc ==ℤ sqlite_ok
      then (go_string (c.memory s) p, go_string (c.memory s) q, rc, s)
      else ([], [], rc, s)

  unfoldable pub table_column_metadata : Text → Text → Text → S → Text × Text × ℤ × S
  table_column_metadata db table column s =
      read_metadata (c.table_column_metadata db table column s)

  -- ColumnBlobBytes; ValueBlobBytes does the same for a value.
  unfoldable pub column_blob_bytes : ℤ → S → Option Text × S
  column_blob_bytes index s =
      let (p, s') = c.column_blob index s in
      let (n, s'') = c.column_bytes index s' in (copy_bytes (c.memory s'') p n, s'')

-- The pointer and the length that the generated wrappers with a []byte pass, for a slice at an address.
unfoldable pub slice_arguments : ℕ → Option Text → ℕ × ℤ
slice_arguments p none = (0, pos 0)
slice_arguments p (some []) = (0, pos 0)
slice_arguments p (some (b ∷ bs)) = (p, to_int32 (pos (length (b ∷ bs))))

-- The callbacks of sqlite3_create_function_v2 and sqlite3_create_window_function. `C` are C pointers to Go
-- functions `F`; nil is passed as NULL.
pub record Callbacks (C : Type 0) : Type 0 where
  pub x_func : Option C
  pub x_step : Option C
  pub x_final : Option C
  pub x_value : Option C
  pub x_inverse : Option C
  pub x_destroy : Option C

module _ {F C : Type 0} (new_callback : F → C) where
  abbrev pub callback_of : Option F → Option C
  callback_of none = none
  callback_of (some f) = some (new_callback f)

  unfoldable pub scalar_callbacks : Option F → Option F → Callbacks C
  scalar_callbacks x_func x_destroy = record {
    x_func = callback_of x_func;
    x_step = none;
    x_final = none;
    x_value = none;
    x_inverse = none;
    x_destroy = callback_of x_destroy;
  }

  unfoldable pub aggregate_callbacks : Option F → Option F → Option F → Callbacks C
  aggregate_callbacks x_step x_final x_destroy = record {
    x_func = none;
    x_step = callback_of x_step;
    x_final = callback_of x_final;
    x_value = none;
    x_inverse = none;
    x_destroy = callback_of x_destroy;
  }

  unfoldable pub window_callbacks :
      Option F → Option F → Option F → Option F → Option F → Callbacks C
  window_callbacks x_step x_final x_value x_inverse x_destroy = record {
    x_func = none;
    x_step = callback_of x_step;
    x_final = callback_of x_final;
    x_value = callback_of x_value;
    x_inverse = callback_of x_inverse;
    x_destroy = callback_of x_destroy;
  }
