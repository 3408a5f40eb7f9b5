-- ===== src/Sys/Calls/Blocks.antt =====
-- sqlite3/sqlite3sys/ext.go and generated.go: the blocks of C memory that the wrappers free or hand over.
use purego_gen.Prelude.{
  ℕ, ◌≡◌, ◌≢◌, refl, ◌∙◌, ap, ◌||◌, List, [], ◌∷◌, ◌==◌, if◌then◌else◌, arith, length,
}
use purego_gen.Prelude.Int.{ℤ, pos}
use purego_gen.Prelude.Text.{Text, is_empty}
use purego_gen.Sqlite3.Extern.{erase}
use purego_gen.Sys.Memory.{Memory, bytes_at}
use purego_gen.Sys.Memory.Bytes.{write, bytes_at-write}
use purego_gen.Sys.Calls.{
  CLibrary, has_nocopy, with_freeonclose, owned_string, expanded_sql, serialized, serialize,
  deserialize,
}

-- How sqlite3.h says that blocks come and go: sqlite3_free drops one; sqlite3_serialize makes a new one, unless it
-- answers NULL or is told not to copy; sqlite3_expanded_sql makes a new one, unless it answers NULL.
pub record KeepsBlocks {S : Type 0} (c : CLibrary S) (blocks : S → List ℕ) : Type 0 where
  pub free_blocks : (p : ℕ) (s : S) → blocks (c.free p s) ≡ erase p (blocks s)
  pub serialize_blocks :
      (schema : Text) (flags : ℕ) (s : S)
      → let r = c.serialize schema flags s in
        blocks r.2 ≡ (if r.0 == 0 || has_nocopy flags then blocks s else r.0 ∷ blocks s)
  pub expanded_blocks :
      (s : S)
      → let r = c.expanded_sql s in blocks r.1 ≡ (if r.0 == 0 then blocks s else r.0 ∷ blocks s)

module _ {S : Type 0} (c : CLibrary S) (blocks : S → List ℕ) (k : KeepsBlocks c blocks) where
  serialized_blocks :
      (flags : ℕ) (old : List ℕ) (p : ℕ) (size : ℤ) (s : S)
      → blocks s ≡ (if p == 0 || has_nocopy flags then old else p ∷ old)
      → blocks (serialized c flags (p, size, s)).1 ≡ old
  serialized_blocks flags old p size s h = ground (arith, k.free_blocks p s)

  owned_blocks :
      (fuel : ℕ) (old : List ℕ) (p : ℕ) (s : S)
      → blocks s ≡ (if p == 0 then old else p ∷ old)
      → blocks (owned_string c fuel p s).1 ≡ old
  unfolding owned_string
  owned_blocks fuel old p s h = ground (arith, k.free_blocks p s)

  -- Serialize and ExpandedSQL leave no block of the library behind, on every path: with or without
  -- SQLITE_SERIALIZE_NOCOPY, where the library answers NULL, and for an empty database.
  pub wrappers_release :
      (schema : Text) (flags fuel : ℕ) (s : S)
      → (blocks (serialize c schema flags s).1 ≡ blocks s)
        × (blocks (expanded_sql c fuel s).1 ≡ blocks s)
  unfolding serialize expanded_sql
  wrappers_release schema flags fuel s =
      let r = c.serialize schema flags s in
      let t = c.expanded_sql s in
      (
        serialized_blocks flags (blocks s) r.0 r.1 r.2 (k.serialize_blocks schema flags s),
        owned_blocks fuel (blocks s) t.0 t.1 (k.expanded_blocks s),
      )

module _ {S : Type 0} (c : CLibrary S) where
  -- What sqlite3_deserialize finds at the block that Deserialize hands over: the bytes of the slice.
  pub deserialize_lem :
      (schema bytes : Text) (flags : ℕ) (s : S)
      → ((p : ℕ) (t : S) → c.memory (c.write_at p bytes t) ≡ write (c.memory t) p bytes)
      → let p = (c.malloc64 (length bytes) s).0 in
        let t = (c.malloc64 (length bytes) s).1 in
        let t' = if is_empty bytes then t else c.write_at p bytes t in
        p ≢ 0
        → (deserialize c schema bytes flags s
            ≡ c.deserialize schema p
                (pos (length bytes))
                (pos (length bytes))
                (with_freeonclose flags)
                t')
          × (bytes_at (c.memory t') p (length bytes) ≡ bytes)
  unfolding deserialize bytes_at
  deserialize_lem schema [] flags s law n = (ground arith, refl)
  deserialize_lem schema (b ∷ bs) flags s law n =
      let p = (c.malloc64 (length (b ∷ bs)) s).0 in
      let t = (c.malloc64 (length (b ∷ bs)) s).1 in
      (
        ground arith,
        ap (λ (m : Memory). bytes_at m p (length (b ∷ bs))) (law p t)
            ∙ bytes_at-write (c.memory t) p (b ∷ bs),
      )
