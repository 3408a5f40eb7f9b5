-- ===== src/Sys/Calls/Tests.antt =====
-- A library whose state is its memory and the blocks that it has given out; the next block is at 64.
use purego_gen.Prelude.{ℕ, ◌≡◌, refl, ◌||◌, List, [], ◌∷◌, some, ◌==◌, if◌then◌else◌}
use purego_gen.Prelude.Int.{pos}
use purego_gen.Prelude.Text.{Text, codes}
use purego_gen.Sqlite3.Extern.{erase}
use purego_gen.Sys.Memory.{Memory, c_string, copy_bytes}
use purego_gen.Sys.Memory.Bytes.{write}
use purego_gen.Sys.Calls.{CLibrary, has_nocopy, serialize, deserialize, expanded_sql, open_v2}
use purego_gen.Sys.Calls.Blocks.{KeepsBlocks, wrappers_release}

pub record Heap : Type 0 where
  pub memory : Memory
  pub blocks : List ℕ

abbrev database : Text
database = codes "SQLite format 3"

abbrev heap_library : CLibrary Heap
heap_library = record {
  memory = λ s. s.memory;
  place = λ t s. (32, record s { memory = write s.memory 32 (c_string t) });
  write_at = λ p t s. record s { memory = write s.memory p t };
  malloc64 = λ n s. (64, record s { blocks = 64 ∷ s.blocks });
  free = λ p s. record s { blocks = erase p s.blocks };
  serialize = λ schema flags s. (
    64,
    pos 15,
    record {
      memory = write s.memory 64 database;
      blocks = if 64 == 0 || has_nocopy flags then s.blocks else 64 ∷ s.blocks;
    },
  );
  deserialize = λ schema p size capacity flags s. (pos flags, s);
  expanded_sql = λ s. (
    64,
    record { memory = write s.memory 64 (c_string (codes "SELECT 1")); blocks = 64 ∷ s.blocks },
  );
  open_v2 = λ filename flags vfs s. (pos vfs, s);
  wal_checkpoint = λ p s. (pos p, s);
  wal_checkpoint_v2 = λ p mode s. (pos p, s);
  load_extension = λ file p s. (pos p, s);
  table_column_metadata = λ db table column s. (pos 0, 0, 0, s);
  column_blob = λ i s. (0, s);
  column_bytes = λ i s. (pos 0, s);
}

abbrev empty_heap : Heap
empty_heap = record { memory = λ a. 0; blocks = 7 ∷ [] }

heap_library-KeepsBlocks : KeepsBlocks heap_library (λ s. s.blocks)
heap_library-KeepsBlocks = record {
  free_blocks = λ p s. refl;
  serialize_blocks = λ schema flags s. refl;
  expanded_blocks = λ s. refl;
}

wrappers_release_example :
    ((serialize heap_library (codes "main") 0 empty_heap).1.blocks ≡ 7 ∷ [])
    × ((expanded_sql heap_library 20 empty_heap).1.blocks ≡ 7 ∷ [])
wrappers_release_example =
    wrappers_release heap_library (λ s. s.blocks) heap_library-KeepsBlocks (codes "main") 0 20
      empty_heap

serialized_database : (serialize heap_library (codes "main") 0 empty_heap).0 ≡ some database
unfolding serialize copy_bytes write
serialized_database = refl

-- FREEONCLOSE is added to the flags, and an empty vfs is NULL.
deserialize_flags : (deserialize heap_library (codes "main") database 2 empty_heap).0 ≡ pos 3
unfolding deserialize
deserialize_flags = refl

default_vfs : (open_v2 heap_library (codes "a.db") (pos 6) [] empty_heap).0 ≡ pos 0
unfolding open_v2
default_vfs = refl
