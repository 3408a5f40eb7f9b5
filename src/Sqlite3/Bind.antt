-- ===== src/Sqlite3/Bind.antt =====
-- sqlite3.go: how a statement's parameters are bound.
pub mod Total
pub mod Normal
pub mod Binds
pub mod Assigns
use purego_gen.Prelude.{
  ℕ, zero, suc, Bool, true, false, ◌&&◌, ◌||◌, List, [], ◌∷◌, Option, none, some, ◌==◌,
  if◌then◌else◌,
}
use purego_gen.Prelude.Int.{ℤ, pos, to_int32, ◌==ℤ◌}
use purego_gen.Prelude.Text.{Text, is_empty, text_eq}
use purego_gen.Go.{
  Value, nil, int64, float64, bool, string, bytes, time, int, int8, int16, int32, uint, uint8,
  uint16, uint32, uint64, float32, valuer_ok, valuer_err, other, NamedValue, GoError, bad_conn,
  errorf, str, type_id, Context,
}
use purego_gen.Go.Exec.{
  Exec, Outcome, ok, err, panics, diverges, pure, fail, lift, gets, state, modify, ◌>>=◌, ◌>>◌,
  check,
}
use purego_gen.Sqlite3.Codes.{sqlite_ok, sqlite_row, sqlite_done, sqlite_interrupt}
use purego_gen.Sqlite3.Extern.{
  Extern, Handle, Binding, passed, bind_null, bind_int64, bind_double, bind_text, bind_blob,
}
use purego_gen.Sqlite3.Errors.{error_from_result, context_err}
use purego_gen.Sqlite3.State.{
  ConnectionConfig, Conn, Stmt, SqliteResult, Env, StmtEnv, on_lib, in_env,
}
use purego_gen.Sqlite3.Values.{normalize_value, values_to_named_values}
use purego_gen.Sqlite3.TimeText.{format_sqlite_time}

abbrev pub is_nil : Handle → Bool
is_nil none = true
is_nil (some h) = false

abbrev pub check_usable : Conn → Option GoError
check_usable c = if c.closed || is_nil c.db then some bad_conn else none

-- `normalized == value` between interfaces, where the dynamic type of `value` is none of those that
-- the switch of bindValue names.
abbrev pub same_dynamic : Value → Value → Bool
same_dynamic (int a) (int b) = a ==ℤ b
same_dynamic (int8 a) (int8 b) = a ==ℤ b
same_dynamic (int16 a) (int16 b) = a ==ℤ b
same_dynamic (int32 a) (int32 b) = a ==ℤ b
same_dynamic (uint a) (uint b) = a == b
same_dynamic (uint8 a) (uint8 b) = a == b
same_dynamic (uint16 a) (uint16 b) = a == b
same_dynamic (uint32 a) (uint32 b) = a == b
same_dynamic (uint64 a) (uint64 b) = a == b
same_dynamic (float32 a) (float32 b) = a == b
same_dynamic (other a) (other b) = a == b
same_dynamic (valuer_ok a) (valuer_ok b) = true
same_dynamic (valuer_err a) (valuer_err b) = true
same_dynamic _ _ = false

abbrev pub type_of : Value → ℕ
type_of (other t) = t
type_of v = 0

abbrev int_of_bool : Bool → ℤ
int_of_bool true = pos 1
int_of_bool false = pos 0

unfoldable pub on_handle : {S A : Type 0} → (Handle → S → A × S) → Exec (StmtEnv S) A
unfolding on_lib in_env
on_handle f e = in_env (on_lib (f e.stmt.handle)) e

module _ {S : Type 0} (x : Extern S) where
  abbrev pub result_error : ℤ → Env S → Option GoError
  result_error rc e = error_from_result x e.conn.db rc e.lib

  -- `if result != SQLITE_OK { return s.conn.errorFromResult(result) }`.
  unfoldable pub bind_result : ℤ → Exec (StmtEnv S) (Unit {0})
  bind_result rc = do e ← state; check (result_error rc e.env)

  -- The candidates in the order of the source; 0 is no index.
  abbrev pub first_index : Handle → List Text → S → Option ℤ
  first_index h [] s = none
  first_index h (n ∷ ns) s =
      let rest = first_index h ns s in
      let index = x.bind_parameter_index h n s in if index ==ℤ pos 0 then rest else some index

  abbrev pub candidates : Text → List Text
  candidates name = name ∷ (b':' ∷ name) ∷ (b'@' ∷ name) ∷ (b'$' ∷ name) ∷ []

  unfoldable pub resolve_index : NamedValue → StmtEnv S → Outcome ℤ
  resolve_index arg e =
      if is_empty arg.name
      then ok (to_int32 arg.ordinal)
      else elim (first_index e.stmt.handle (candidates arg.name) e.lib) [
        | none ↦ err (errorf "sqlite3: unknown named parameter %q" (str arg.name ∷ []))
        | some index ↦ ok index
      ]

  abbrev bind_with : ℤ → Binding → Exec (StmtEnv S) (Unit {0})
  bind_with index b = do rc ← on_handle (λ h. x.bind_value h index (passed b)); bind_result rc

  -- The default case of bindValue, over its recursive call.
  abbrev pub bind_other :
      Value → (Value → Exec (StmtEnv S) (Unit {0})) → Exec (StmtEnv S) (Unit {0})
  bind_other value again = do
    normalized ← lift (normalize_value value)
    if same_dynamic normalized value
        then fail
            (errorf "sqlite3: unsupported bind parameter type %T" (type_id (type_of value) ∷ []))
        else again normalized

  -- The argument bounds the depth of the calls.
  unfoldable pub bind_value : ℕ → ℤ → Value → Exec (StmtEnv S) (Unit {0})
  bind_value zero index value = lift diverges
  bind_value (suc depth) index nil = bind_with index bind_null
  bind_value (suc depth) index (int64 v) = bind_with index (bind_int64 v)
  bind_value (suc depth) index (float64 v) = bind_with index (bind_double v)
  bind_value (suc depth) index (bool v) = bind_with index (bind_int64 (int_of_bool v))
  bind_value (suc depth) index (string v) = bind_with index (bind_text v)
  bind_value (suc depth) index (bytes v) = bind_with index (bind_blob v)
  bind_value (suc depth) index (time v) = bind_with index (bind_text (format_sqlite_time v))
  bind_value (suc depth) index v = bind_other v (λ n. bind_value depth index n)

  unfoldable pub bind_arg : NamedValue → Exec (StmtEnv S) (Unit {0})
  bind_arg arg = do e ← state; index ← lift (resolve_index arg e); bind_value 2 index arg.value

  unfoldable pub bind_args : List NamedValue → Exec (StmtEnv S) (Unit {0})
  bind_args [] = pure tt
  bind_args (arg ∷ args) = bind_arg arg >> bind_args args

  unfoldable pub bind_named_values : List NamedValue → Exec (StmtEnv S) (Unit {0})
  bind_named_values args = do
    e ← state
    check (check_usable e.conn)
    rc ← on_handle x.reset
    bind_result rc
    rc ← on_handle x.clear_bindings
    bind_result rc
    bind_args args
