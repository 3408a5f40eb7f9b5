-- ===== src/Sys/Wrappers.antt =====
-- sqlite3/sqlite3sys and duckdb/duckdbsys, all files but load.go and generated.go: the wrappers that pass their
-- arguments on to one C function. The children hold the wrappers of each file as data, and
-- call_wrapper runs one.
pub mod Duck
pub mod DuckValue
pub mod DuckExt
pub mod Sqlite
pub mod Passes
pub mod All
pub mod Tests
use Prim.Native.String.{String}
use text.Mathlib.Text.{◌==◌ as str_eq}
use purego_gen.Prelude.{ℕ, Bool, List, [], ◌∷◌, Option, none, some, if◌then◌else◌}
use purego_gen.Go.Exec.{Exec, ok, panics}
use purego_gen.Sys.Load.{Bindings}

-- `func name(params) R { return callee(arguments) }`; with `owned`, what callee returns is first read and freed by
-- ownedString. All names are the source's.
pub record Wrapper : Type 0 where
  pub name : String
  pub params : List String
  pub callee : String
  pub arguments : List String
  pub owned : Bool

module _ {A : Type 0} where
  -- The value of a variable.
  unfoldable pub find : String → List (String × A) → Option A
  find s [] = none
  find s ((name, a) ∷ rest) = let later = find s rest in if str_eq s name then some a else later

  -- What a call binds the parameters to.
  unfoldable pub frame : List String → List A → List (String × A)
  frame (p ∷ ps) (v ∷ vs) = (p, v) ∷ frame ps vs
  frame ps vs = []

  abbrev cons_value : Option A → Option (List A) → Option (List A)
  cons_value (some v) (some vs) = some (v ∷ vs)
  cons_value v vs = none

  unfoldable pub values : List (String × A) → List String → Option (List A)
  unfolding find
  values f [] = some []
  values f (s ∷ ss) = cons_value (find s f) (values f ss)

-- A call of the C function at an address, and ownedString on what it returns.
pub record Foreign (S V : Type 0) : Type 0 where
  pub call : ℕ → List V → S → V × S
  pub owned_string : V → S → V × S

module _ {S V : Type 0} (c : Foreign S V) where
  abbrev pub finish : Bool → V × S → V × S
  finish owned (v, s) = if owned then c.owned_string v s else (v, s)

  -- A function variable that is not bound is nil. The compiler refuses an argument that is not a parameter.
  abbrev pub called : Bool → Option ℕ → Option (List V) → Exec S V
  called owned (some p) (some vs) s = let (v, s') = finish owned (c.call p vs s) in (ok v, s')
  called owned p vs s = (panics, s)

  unfoldable pub call_wrapper : Wrapper → Bindings → List V → Exec S V
  unfolding find frame values
  call_wrapper w b vs = called w.owned (find w.callee b) (values (frame w.params vs) w.arguments)
