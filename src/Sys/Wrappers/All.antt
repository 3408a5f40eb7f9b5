-- ===== src/Sys/Wrappers/All.antt =====
-- sqlite3/sqlite3sys and duckdb/duckdbsys: all the wrappers that pass their arguments on, and a test that
-- each names its parameters, in order, and a function that is registered under its own name.
use Prim.Native.String.{String}
use text.Mathlib.Text.{◌==◌ as str_eq}
use purego_gen.Prelude.Text.{Text, codes, text_eq}
use purego_gen.Prelude.{
  ◌+◌, ◌==◌, leb, if◌then◌else◌, ◌≡◌, refl, Bool, true, false, not, ◌&&◌, ◌||◌, List, [], ◌∷◌, ◌++◌,
}
use purego_gen.Sys.Symbols.Sqlite.{
  sqlite_symbols_1, sqlite_symbols_2, sqlite_symbols_3, sqlite_symbols_4, sqlite_symbols_5,
}
use purego_gen.Sys.Symbols.Duck.{
  duck_symbols_1, duck_symbols_2, duck_symbols_3, duck_symbols_4, duck_symbols_5,
}
use purego_gen.Sys.Symbols.DuckMore.{
  duck_symbols_6, duck_symbols_7, duck_symbols_8, duck_symbols_9, duck_symbols_10,
}
use purego_gen.Sys.Load.{sqlite_package, duck_package}
use purego_gen.Sys.Wrappers.{Wrapper}
use purego_gen.Sys.Wrappers.Duck.{
  duck_db_wrappers_1, duck_db_wrappers_2, duck_db_wrappers_3, duck_chunk_wrappers_1,
  duck_prepared_wrappers_1, duck_prepared_wrappers_2, duck_prepared_wrappers_3,
  duck_prepared_wrappers_4, duck_prepared_wrappers_5,
}
use purego_gen.Sys.Wrappers.DuckValue.{
  duck_value_wrappers_1, duck_value_wrappers_2, duck_value_wrappers_3, duck_value_wrappers_4,
}
use purego_gen.Sys.Wrappers.DuckExt.{
  duck_ext_wrappers_1, duck_ext_wrappers_2, duck_ext_wrappers_3, duck_type_wrappers_1,
}
use purego_gen.Sys.Wrappers.Sqlite.{
  sqlite_db_wrappers_1, sqlite_db_wrappers_2, sqlite_db_wrappers_3, sqlite_bind_column_wrappers_1,
  sqlite_bind_column_wrappers_2, sqlite_bind_column_wrappers_3, sqlite_bind_column_wrappers_4,
  sqlite_ext_wrappers_1, sqlite_ext_wrappers_2, sqlite_ext_wrappers_3, sqlite_ext_wrappers_4,
  sqlite_func_wrappers_1, sqlite_func_wrappers_2, sqlite_func_wrappers_3, sqlite_func_wrappers_4,
  sqlite_func_wrappers_5,
}

-- Is a name in a list?
abbrev pub contains : String → List String → Bool
contains s [] = false
contains s (t ∷ ts) = str_eq s t || contains s ts

abbrev pub distinct : List String → Bool
distinct [] = true
distinct (s ∷ ss) = not (contains s ss) && distinct ss

abbrev pub eq_names : List String → List String → Bool
eq_names [] [] = true
eq_names (s ∷ ss) (t ∷ ts) = str_eq s t && eq_names ss ts
eq_names ss ts = false

-- Letters in lower case, without underscores.
abbrev pub squash : Text → Text
squash [] = []
squash (c ∷ cs) =
    let rest = squash cs in
    if c == 95 then rest else if leb 65 c && leb c 90 then (c + 32) ∷ rest else c ∷ rest

-- The C function has the name of the Go function, after the prefix of the library and up to case and
-- underscores; a Go name may have the word Value more at its end.
abbrev pub is_named : String → String → String → Bool
is_named prefix name callee =
    text_eq (squash (codes callee)) (squash (codes prefix ++ codes name))
    || text_eq (squash (codes callee) ++ codes "value") (squash (codes prefix ++ codes name))

abbrev pub fits : String → List String → Wrapper → Bool
fits prefix symbols w =
    is_named prefix w.name w.callee
    && (contains w.callee symbols && (distinct w.params && eq_names w.arguments w.params))

abbrev pub all_fit : String → List String → List Wrapper → Bool
all_fit prefix symbols [] = true
all_fit prefix symbols (w ∷ ws) = fits prefix symbols w && all_fit prefix symbols ws

unfoldable pub duck_wrappers : List Wrapper
duck_wrappers =
    duck_db_wrappers_1
    ++ (duck_db_wrappers_2
        ++ (duck_db_wrappers_3
            ++ (duck_chunk_wrappers_1
                ++ (duck_prepared_wrappers_1
                    ++ (duck_prepared_wrappers_2
                        ++ (duck_prepared_wrappers_3
                            ++ (duck_prepared_wrappers_4
                                ++ (duck_prepared_wrappers_5
                                    ++ (duck_value_wrappers_1
                                        ++ (duck_value_wrappers_2
                                            ++ (duck_value_wrappers_3
                                                ++ (duck_value_wrappers_4
                                                    ++ (duck_ext_wrappers_1
                                                        ++ (duck_ext_wrappers_2
                                                            ++ (duck_ext_wrappers_3
                                                            ++ (duck_type_wrappers_1))))))))))))))))

unfoldable pub sqlite_wrappers : List Wrapper
sqlite_wrappers =
    sqlite_db_wrappers_1
    ++ (sqlite_db_wrappers_2
        ++ (sqlite_db_wrappers_3
            ++ (sqlite_bind_column_wrappers_1
                ++ (sqlite_bind_column_wrappers_2
                    ++ (sqlite_bind_column_wrappers_3
                        ++ (sqlite_bind_column_wrappers_4
                            ++ (sqlite_ext_wrappers_1
                                ++ (sqlite_ext_wrappers_2
                                    ++ (sqlite_ext_wrappers_3
                                        ++ (sqlite_ext_wrappers_4
                                            ++ (sqlite_func_wrappers_1
                                                ++ (sqlite_func_wrappers_2
                                                    ++ (sqlite_func_wrappers_3
                                                        ++ (sqlite_func_wrappers_4
                                                            ++ (sqlite_func_wrappers_5)))))))))))))))

pub duck_fit : all_fit "duckdb_" duck_package.symbols duck_wrappers ≡ true
unfolding duck_wrappers duck_package duck_symbols_1 duck_symbols_2 duck_symbols_3 duck_symbols_4
    duck_symbols_5 duck_symbols_6 duck_symbols_7 duck_symbols_8 duck_symbols_9 duck_symbols_10
    duck_db_wrappers_1 duck_db_wrappers_2 duck_db_wrappers_3 duck_chunk_wrappers_1
    duck_prepared_wrappers_1 duck_prepared_wrappers_2 duck_prepared_wrappers_3
    duck_prepared_wrappers_4 duck_prepared_wrappers_5 duck_value_wrappers_1 duck_value_wrappers_2
    duck_value_wrappers_3 duck_value_wrappers_4 duck_ext_wrappers_1 duck_ext_wrappers_2
    duck_ext_wrappers_3 duck_type_wrappers_1
duck_fit = refl

pub sqlite_fit : all_fit "sqlite3_" sqlite_package.symbols sqlite_wrappers ≡ true
unfolding sqlite_wrappers sqlite_package sqlite_symbols_1 sqlite_symbols_2 sqlite_symbols_3
    sqlite_symbols_4 sqlite_symbols_5 sqlite_db_wrappers_1 sqlite_db_wrappers_2 sqlite_db_wrappers_3
    sqlite_bind_column_wrappers_1 sqlite_bind_column_wrappers_2 sqlite_bind_column_wrappers_3
    sqlite_bind_column_wrappers_4 sqlite_ext_wrappers_1 sqlite_ext_wrappers_2 sqlite_ext_wrappers_3
    sqlite_ext_wrappers_4 sqlite_func_wrappers_1 sqlite_func_wrappers_2 sqlite_func_wrappers_3
    sqlite_func_wrappers_4 sqlite_func_wrappers_5
sqlite_fit = refl
