-- ===== src/Sys/Wrappers/Tests.antt =====
-- A C library that logs its calls, with values that are numbers: the answer is the sum of the arguments, and a
-- C string is freed by logging it at address 0.
use mathlib.Core.List.{Memᴰ}
use mathlib.Core.List.Memᴰ.{head}
use purego_gen.Prelude.{ℕ, ◌+◌, ◌*◌, ◌≡◌, refl, true, false, List, [], ◌∷◌, ◌++◌}
use purego_gen.Go.Exec.{ok, panics}
use purego_gen.Libload.{handle, candidates, open_library, dedupe, dedupe_from, lib_stem}
use purego_gen.Libload.Search.{OpensFirst}
use purego_gen.Sys.Load.{System, load, library_candidates, duck_package}
use purego_gen.Sys.Load.Tests.{linux, unloaded}
use purego_gen.Sys.Symbols.Duck.{
  duck_symbols_1, duck_symbols_2, duck_symbols_3, duck_symbols_4, duck_symbols_5,
}
use purego_gen.Sys.Symbols.DuckMore.{
  duck_symbols_6, duck_symbols_7, duck_symbols_8, duck_symbols_9, duck_symbols_10,
}
use purego_gen.Sys.Wrappers.{Wrapper, Foreign, finish, call_wrapper}
use purego_gen.Sys.Wrappers.Duck.{duck_db_wrappers_1}
use purego_gen.Sys.Wrappers.All.{duck_wrappers}
use purego_gen.Sys.Wrappers.Passes.{duckdbsys, HasName, wrapper_calls}

abbrev total : List ℕ → ℕ
total [] = 0
total (n ∷ ns) = n + total ns

abbrev logged : Foreign (List (ℕ × List ℕ)) ℕ
logged = record {
  call = λ a vs s. (total vs, s ++ (a, vs) ∷ []);
  owned_string = λ v s. (v * 2, s ++ (0, v ∷ []) ∷ []);
}

abbrev loader : System
loader = record {
  platform = record linux { dlopen = λ t. handle 5 };
  getenv = λ v. [];
  dlsym = λ h s. handle (h + 700);
}

-- func Open(path string, db *Database) int32
abbrev open_wrapper : Wrapper
open_wrapper = record {
  name = "Open";
  params = "path" ∷ "db" ∷ [];
  callee = "duckdb_open";
  arguments = "path" ∷ "db" ∷ [];
  owned = false;
}

duck_loads : (load loader duck_package unloaded).0 ≡ ok tt
unfolding load candidates dedupe_from lib_stem open_library dedupe duck_package duck_symbols_1
    duck_symbols_2 duck_symbols_3 duck_symbols_4 duck_symbols_5 duck_symbols_6 duck_symbols_7
    duck_symbols_8 duck_symbols_9 duck_symbols_10
duck_loads = refl

open-Mem : Memᴰ open_wrapper duck_wrappers
unfolding duck_wrappers duck_db_wrappers_1
open-Mem = head refl

wrapper_calls_example :
    (h : ℕ) × (a : ℕ) × OpensFirst loader.platform.dlopen
      (library_candidates loader duck_package)
      (ok h)
    × HasName "duckdb_" "Open" "duckdb_open"
    × (loader.dlsym h "duckdb_open" ≡ handle a)
    × (call_wrapper logged open_wrapper (load loader duck_package unloaded).1.bound (3 ∷ 4 ∷ []) []
        ≡ (
          ok (finish logged false (logged.call a (3 ∷ 4 ∷ []) [])).0,
          (finish logged false (logged.call a (3 ∷ 4 ∷ []) [])).1,
        ))
wrapper_calls_example =
    wrapper_calls logged loader duckdbsys unloaded refl refl duck_loads open_wrapper (3 ∷ 4 ∷ []) []
      open-Mem refl

-- GetVarchar reads and frees the string; a function that is not bound is nil.
abbrev varchar_wrapper : Wrapper
varchar_wrapper = record {
  name = "GetVarchar";
  params = "val" ∷ [];
  callee = "duckdb_get_varchar";
  arguments = "val" ∷ [];
  owned = true;
}

varchar_freed :
    call_wrapper logged varchar_wrapper (("duckdb_get_varchar", 7) ∷ []) (21 ∷ []) []
    ≡ (ok 42, (7, 21 ∷ []) ∷ (0, 21 ∷ []) ∷ [])
unfolding call_wrapper
varchar_freed = refl

varchar_unbound : call_wrapper logged varchar_wrapper [] (21 ∷ []) [] ≡ (panics, [])
unfolding call_wrapper
varchar_unbound = refl
