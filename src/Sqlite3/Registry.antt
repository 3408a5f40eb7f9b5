-- ===== src/Sqlite3/Registry.antt =====
-- sqlite3.go: the functions and collations that a connection gives to SQL, kept by number in two maps of
-- the connection; SQLite hands the number back when it calls one or drops it.
pub mod Entries
pub mod Tests
use purego_gen.Prelude.{
  ℕ, zero, suc, ◌+◌, ◌%◌, ◌^◌, Bool, List, [], ◌∷◌, Option, none, some, ◌==◌, if◌then◌else◌, length,
}
use purego_gen.Prelude.Int.{ℤ, ◌==ℤ◌}
use purego_gen.Prelude.Text.{Text}
use purego_gen.Go.{GoError, errorf}
use purego_gen.Go.Reflect.{Reflected, Argument}
use purego_gen.Go.Exec.{Outcome, ok, err, panics, diverges}
use purego_gen.Sqlite3.Codes.{sqlite_ok}
use purego_gen.Sqlite3.Extern.{Extern, Handle}
use purego_gen.Sqlite3.Errors.{error_from_result}

-- A Go map from numbers.
abbrev pub Entries : Type 0 → Type 0
Entries A = List (ℕ × A)

module _ {A : Type 0} where
  unfoldable pub lookup : ℕ → Entries A → Option A
  lookup k [] = none
  lookup k ((j, a) ∷ es) = let rest = lookup k es in if k == j then some a else rest

  unfoldable pub delete : ℕ → Entries A → Entries A
  delete k [] = []
  delete k ((j, a) ∷ es) = let rest = delete k es in if k == j then rest else (j, a) ∷ rest

  unfoldable pub insert : ℕ → A → Entries A → Entries A
  unfolding delete
  insert k a es = (k, a) ∷ delete k es

  -- The destructors that SQLite calls, one after the other.
  unfoldable pub delete_all : List ℕ → Entries A → Entries A
  unfolding delete
  delete_all [] es = es
  delete_all (k ∷ ks) es = delete_all ks (delete k es)

-- What a call of an SQL function gives to SQLite: a result, or an error.
pub data CallResult (R : Type 0) : Type 0 where
  result : R → CallResult R
  result_error : GoError → CallResult R

-- scalarFunction: value.Call, with nothing where the Go function panics; a decoder for every argument; and
-- the encoder of the results. `V` is what SQLite passes, `R` what it takes.
pub record ScalarFunction (V R : Type 0) : Type 0 where
  pub call : List Argument → Option (List Reflected)
  pub args : List (V → Outcome Argument)
  pub return_func : List Reflected → Outcome (CallResult R)

-- The comparator of a collationFunction.
abbrev pub Compare : Type 0
Compare = Text → Text → ℤ

pub record Registry (V R : Type 0) : Type 0 where
  pub next_id : ℕ
  pub scalars : Entries (ScalarFunction V R)
  pub collations : Entries Compare

-- sqlite3_create_function_v2 and sqlite3_create_collation_v2 on the connection's database: the code, and
-- the numbers whose destructor SQLite calls meanwhile.
pub record Creator (S : Type 0) : Type 0 where
  pub create_function : Handle → Text → ℕ → Bool → ℕ → S → ℤ × List ℕ × S
  pub create_collation : Handle → Text → ℕ → S → ℤ × List ℕ × S

-- The registry is that of a connection whose database is `db`.
pub record RegistryEnv (V R S : Type 0) : Type 0 where
  pub registry : Registry V R
  pub db : Handle
  pub lib : S

-- uintptr wraps around.
unfoldable pub next_registry_id : ℕ → ℕ
next_registry_id n = (n + 1) % 2 ^ 64

abbrev error_of : Option GoError → Outcome (Unit {0})
error_of none = ok tt
error_of (some e) = err e

module _ {V R S : Type 0} (x : Extern S) (y : Creator S) where
  -- The end of RegisterFunc: an entry that SQLite has not taken is removed.
  abbrev keep_scalar :
      ℕ → ℤ × List ℕ × S → RegistryEnv V R S → Outcome (Unit {0}) × RegistryEnv V R S
  keep_scalar id (rc, dropped, s) e =
      let left = delete_all dropped e.registry.scalars in
      if rc ==ℤ sqlite_ok
      then (ok tt, record e { registry = record e.registry { scalars = left }; lib = s })
      else (
        error_of (error_from_result x e.db rc s),
        record e { registry = record e.registry { scalars = delete id left }; lib = s },
      )

  -- RegisterFunc of a function that is compiled, or could not be.
  unfoldable pub register_func :
      Text
      → Outcome (ScalarFunction V R)
      → Bool
      → RegistryEnv V R S
      → Outcome (Unit {0}) × RegistryEnv V R S
  unfolding delete_all delete insert next_registry_id
  register_func name (ok f) is_pure e =
      let id = next_registry_id e.registry.next_id in
      keep_scalar id (y.create_function e.db name (length f.args) is_pure id e.lib) (record e {
        registry = record e.registry { next_id = id; scalars = insert id f e.registry.scalars };
      })
  register_func name (err c) is_pure e = (err c, e)
  register_func name panics is_pure e = (panics, e)
  register_func name diverges is_pure e = (diverges, e)

  abbrev keep_collation :
      ℕ → ℤ × List ℕ × S → RegistryEnv V R S → Outcome (Unit {0}) × RegistryEnv V R S
  keep_collation id (rc, dropped, s) e =
      let left = delete_all dropped e.registry.collations in
      if rc ==ℤ sqlite_ok
      then (ok tt, record e { registry = record e.registry { collations = left }; lib = s })
      else (
        error_of (error_from_result x e.db rc s),
        record e { registry = record e.registry { collations = delete id left }; lib = s },
      )

  unfoldable pub register_collation :
      Text → Option Compare → RegistryEnv V R S → Outcome (Unit {0}) × RegistryEnv V R S
  unfolding delete_all delete insert next_registry_id
  register_collation name none e =
      (err (errorf "sqlite3: collation comparator must not be nil" []), e)
  register_collation name (some f) e =
      let id = next_registry_id e.registry.next_id in
      keep_collation id (y.create_collation e.db name id e.lib) (record e {
        registry = record e.registry {
          next_id = id;
          collations = insert id f e.registry.collations;
        };
      })

abbrev pub decode_next : Outcome Argument → Outcome (List Argument) → Outcome (List Argument)
decode_next (ok v) (ok vs) = ok (v ∷ vs)
decode_next (ok v) r = r
decode_next (err e) r = err e
decode_next panics r = panics
decode_next diverges r = diverges

-- The loop over the arguments; the first error ends it.
abbrev pub decode_args :
    {V : Type 0} → List (V → Outcome Argument) → List V → Outcome (List Argument)
decode_args (d ∷ ds) (v ∷ vs) = decode_next (d v) (decode_args ds vs)
decode_args ds vs = ok []

module _ {V R : Type 0} where
  abbrev pub finish_call : ScalarFunction V R → Option (List Reflected) → Outcome (CallResult R)
  finish_call f none = panics
  finish_call f (some results) = f.return_func results

  abbrev pub run_decoded : ScalarFunction V R → Outcome (List Argument) → Outcome (CallResult R)
  run_decoded f (ok vs) = finish_call f (f.call vs)
  run_decoded f (err e) = ok (result_error e)
  run_decoded f panics = panics
  run_decoded f diverges = diverges

  -- A call of a function with the values that SQLite passes.
  abbrev pub call_scalar : Option (ScalarFunction V R) → List V → Outcome (CallResult R)
  call_scalar none vs = ok (result_error (errorf "sqlite3: function registry entry not found" []))
  call_scalar (some f) vs =
      if length vs == length f.args
      then run_decoded f (decode_args f.args vs)
      else ok (result_error (errorf "sqlite3: unexpected argument count" []))

  unfoldable pub invoke_scalar : ℕ → List V → Registry V R → Outcome (CallResult R)
  unfolding lookup
  invoke_scalar id vs r = call_scalar (lookup id r.scalars) vs
