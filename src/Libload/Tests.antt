-- ===== src/Libload/Tests.antt =====
-- A platform with one directory.
use purego_gen.Prelude.{◌≡◌, refl, false, [], ◌∷◌, ◌++◌, some, if◌then◌else◌}
use purego_gen.Prelude.Text.{codes, text_eq}
use purego_gen.Libload.{
  Platform, handle, refused, dedupe, dir_candidates, first_regular, resolve_from_dir, lib_stem,
  sort_strings, open_library,
}
use purego_gen.Libload.Dedupe.{first_occurrences, dedupe_lem}
use purego_gen.Libload.Search.{OpensFirst, resolve_from_dir_lem, open_library-OpensFirst}

abbrev linux : Platform
linux = record {
  darwin = false;
  join = λ d f. d ++ b'/' ∷ f;
  glob = λ pattern. some (codes "/lib/libduckdb.so.2" ∷ codes "/lib/libduckdb.so.1" ∷ []);
  is_regular_file = λ t. text_eq t (codes "/lib/libduckdb.so.1");
  dlopen = λ t.
      if text_eq t (codes "/lib/libduckdb.so.1") then handle 5 else refused (codes "no such file");
}

dedupe_lem_example :
    dedupe (codes "b" ∷ [] ∷ codes "a" ∷ codes "b" ∷ [])
    ≡ first_occurrences (codes "b" ∷ [] ∷ codes "a" ∷ codes "b" ∷ [])
dedupe_lem_example = dedupe_lem (codes "b" ∷ [] ∷ codes "a" ∷ codes "b" ∷ [])

resolve_from_dir_lem_example :
    resolve_from_dir linux (codes "/lib") (codes "duckdb")
    ≡ first_regular linux (dir_candidates linux (codes "/lib") (codes "duckdb"))
resolve_from_dir_lem_example = resolve_from_dir_lem linux (codes "/lib") (codes "duckdb")

-- The oldest version that there is.
found : resolve_from_dir linux (codes "/lib") (codes "duckdb") ≡ some (codes "/lib/libduckdb.so.1")
unfolding resolve_from_dir lib_stem sort_strings
found = refl

open_library-OpensFirst_example :
    OpensFirst linux.dlopen (codes "/lib/libduckdb.so" ∷ codes "/lib/libduckdb.so.1" ∷ []) (
      open_library linux
        (codes "duckdb")
        (codes "/lib/libduckdb.so" ∷ codes "/lib/libduckdb.so.1" ∷ []))
open_library-OpensFirst_example =
    open_library-OpensFirst linux (codes "duckdb")
      (codes "/lib/libduckdb.so" ∷ codes "/lib/libduckdb.so.1" ∷ [])
