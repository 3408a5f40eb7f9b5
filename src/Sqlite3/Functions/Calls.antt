-- ===== src/Sqlite3/Functions/Calls.antt =====
-- sqlite3.go: what a call of a compiled function is given, and what becomes of its results.
use purego_gen.Prelude.{◌≡◌, refl, true, false, List, [], ◌∷◌, Option, some, length, ==_iff}
use purego_gen.Go.{GoError}
use purego_gen.Go.Exec.{Outcome, ok, panics}
use purego_gen.Go.Reflect.{GoType, FuncType, Argument, Reflected, error_value, is_nil}
use purego_gen.Sqlite3.Extern.{Extern}
use purego_gen.Sqlite3.Registry.{ScalarFunction, decode_args, call_scalar}
use purego_gen.Sqlite3.Functions.{
  Reader, SqlResult, func, build_args, encode_two, build_return_encoder, compile_scalar_function,
}

module _ {S V : Type 0} (x : Extern S) (c : Reader V) where
  -- RegisterFunc takes a function whose second result is of a struct type that implements error, and then
  -- a call panics also where it returned without an error in mind: if the parameters of a function have
  -- decoders, it is not variadic, and it has two results of which the second is of a type that implements
  -- error, then it is compiled; and if the decoders give arguments for which it returns a struct value as that error,
  -- then the call panics.
  pub struct_error_panics :
      (t : FuncType) (f : List Argument → Option (List Reflected)) (vs : List V) (a b : GoType)
      (v : Reflected) (e : GoError) (ds : List (V → Outcome Argument)) (gs : List Argument)
      → t.variadic ≡ false
      → build_args x c 0 t.ins ≡ ok ds
      → t.outs ≡ a ∷ b ∷ []
      → b.is_error ≡ true
      → length vs ≡ length ds
      → decode_args ds vs ≡ ok gs
      → f gs ≡ some (v ∷ error_value e ∷ [])
      → (s : ScalarFunction V SqlResult) × (compile_scalar_function x c (func t f) ≡ ok s)
        × (call_scalar (some s) vs ≡ panics)
  unfolding compile_scalar_function build_return_encoder is_nil
  struct_error_panics t f vs a b v e ds gs fixed built outs is_err n decodes returns = (
    record { call = f; args = ds; return_func = encode_two },
    rw fixed (rw built (rw outs (rw is_err refl))),
    rw ((==_iff (length vs) (length ds)).1 n) (rw decodes (rw returns refl)),
  )
