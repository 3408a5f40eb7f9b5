-- ===== src/Sys/Load.antt =====
-- sqlite3/sqlite3sys/load.go, duckdb/duckdbsys/load.go and the ends of their generated.go: Load opens the
-- library and binds its functions, once per process.
pub mod Once
pub mod Tests
use Prim.Native.String.{String}
use purego_gen.Prelude.{ℕ, Bool, true, false, List, [], ◌∷◌, ◌++◌, if◌then◌else◌}
use purego_gen.Prelude.Text.{Text, codes, is_empty}
use purego_gen.Go.{GoError, foreign, str, wrap}
use purego_gen.Go.Exec.{Outcome, ok, err, panics, diverges}
use purego_gen.Libload.{Platform, Opened, handle, refused, candidates, open_library}
use purego_gen.Sys.Symbols.Sqlite.{
  sqlite_symbols_1, sqlite_symbols_2, sqlite_symbols_3, sqlite_symbols_4, sqlite_symbols_5,
}
use purego_gen.Sys.Symbols.Duck.{
  duck_symbols_1, duck_symbols_2, duck_symbols_3, duck_symbols_4, duck_symbols_5,
}
use purego_gen.Sys.Symbols.DuckMore.{
  duck_symbols_6, duck_symbols_7, duck_symbols_8, duck_symbols_9, duck_symbols_10,
}

-- What the two packages differ in.
pub record Package : Type 0 where
  pub label : Text
  pub name : Text
  pub path_variable : Text
  pub dir_variable : Text
  pub symbols : List String

unfoldable pub sqlite_package : Package
sqlite_package = record {
  label = codes "libsqlite3";
  name = codes "sqlite3";
  path_variable = codes "PUREGO_GEN_TEST_LIBSQLITE3_PATH";
  dir_variable = codes "PUREGO_GEN_TEST_LIBSQLITE3_LIB_DIR";
  symbols =
      sqlite_symbols_1
      ++ (sqlite_symbols_2 ++ (sqlite_symbols_3 ++ (sqlite_symbols_4 ++ sqlite_symbols_5)));
}

unfoldable pub duck_package : Package
duck_package = record {
  label = codes "libduckdb";
  name = codes "duckdb";
  path_variable = codes "PUREGO_GEN_TEST_LIBDUCKDB_PATH";
  dir_variable = codes "PUREGO_GEN_TEST_LIBDUCKDB_LIB_DIR";
  symbols =
      duck_symbols_1
      ++ (duck_symbols_2
          ++ (duck_symbols_3
              ++ (duck_symbols_4
                  ++ (duck_symbols_5
                      ++ (duck_symbols_6
                          ++ (duck_symbols_7
                              ++ (duck_symbols_8 ++ (duck_symbols_9 ++ duck_symbols_10))))))));
}

-- The platform, os.Getenv, and purego.Dlsym: an address, or the text of its error.
pub record System : Type 0 where
  pub platform : Platform
  pub getenv : Text → Text
  pub dlsym : ℕ → String → Opened

-- The variables of a package: whether loadOnce has run, loadErr, and the functions that are bound, each with
-- its address.
pub record Library : Type 0 where
  pub load_once : Bool
  pub load_err : Outcome (Unit {0})
  pub bound : List (String × ℕ)

abbrev pub Bindings : Type 0
Bindings = List (String × ℕ)

abbrev if_set : Text → List Text
if_set t = if is_empty t then [] else t ∷ []

abbrev pub unresolved : String → Text → GoError
unresolved symbol why =
    wrap "purego-gen: failed to resolve function symbol %s: %w" (str (codes symbol) ∷ [])
      (foreign why)

-- What is bound until the first symbol that is missing.
abbrev pub bind_symbol :
    String → Opened → Outcome (Unit {0}) × Bindings → Outcome (Unit {0}) × Bindings
bind_symbol symbol (handle address) (r, rest) = (r, (symbol, address) ∷ rest)
bind_symbol symbol (refused why) later = (err (unresolved symbol why), [])

module _ (y : System) where
  unfoldable pub register_functions : ℕ → List String → Outcome (Unit {0}) × Bindings
  register_functions h [] = (ok tt, [])
  register_functions h (s ∷ ss) = bind_symbol s (y.dlsym h s) (register_functions h ss)

  unfoldable pub library_candidates : Package → List Text
  library_candidates p =
      candidates y.platform p.name (if_set (y.getenv p.path_variable))
        (if_set (y.getenv p.dir_variable))

  unfoldable pub open_package : Package → Outcome ℕ
  unfolding library_candidates
  open_package p = open_library y.platform p.label (library_candidates p)

  abbrev pub load_opened : Package → Outcome ℕ → Outcome (Unit {0}) × Bindings
  load_opened p (ok h) = register_functions h p.symbols
  load_opened p (err e) = (err e, [])
  load_opened p panics = (panics, [])
  load_opened p diverges = (diverges, [])

  -- Load returns loadErr.
  unfoldable pub load : Package → Library → Outcome (Unit {0}) × Library
  unfolding open_package register_functions
  load p l =
      let (r, bound) = load_opened p (open_package p) in
      if l.load_once
      then (l.load_err, l)
      else (r, record { load_once = true; load_err = r; bound = bound ++ l.bound })
