-- ===== src/Duckdb/Stmt/Ends.antt =====
-- duckdb.go: binding and running a statement end.
use purego_gen.Prelude.{ℕ, ◌≡◌, refl, ◌≢◌, Bool, true, false, List, [], ◌∷◌, arith, if◌then◌else◌}
use purego_gen.Go.{
  Value, nil, int64, float64, bool, string, bytes, time, uint, uint64, valuer_ok, valuer_err, other,
  NamedValue, GoError, Context, no_context, background, cancellable,
}
use purego_gen.Go.Exec.{diverges, fail, lift, state, ◌>>=◌, check}
use purego_gen.Sqlite3.Extern.{Handle}
use purego_gen.Sqlite3.Bind.Total.{
  is_driver_value, IsNormal, normal_ends, normal_value, Ends, Ends-pure, Ends-fail, Ends-state,
  Ends-check, Ends-bind, Ends-bind-lift, Ends-if,
}
use purego_gen.Duckdb.Extern.{Extern}
use purego_gen.Duckdb.State.{Env, StmtEnv, in_env}
use purego_gen.Duckdb.Values.{normalize_value}
use purego_gen.Duckdb.Stmt.{
  on_prepared, call, check_context, bind_state, resolve_index, bind_value, bind_arg, bind_args,
  bind_named_values, take_result, execute, exec_bound,
}

normalize_value-IsNormal : (v : Value) → IsNormal (normalize_value v)
unfolding normalize_value
normalize_value-IsNormal (uint v) = ground arith
normalize_value-IsNormal (uint64 v) = ground arith
normalize_value-IsNormal (valuer_ok v) = normalize_value-IsNormal v
normalize_value-IsNormal (valuer_err e) = tt
normalize_value-IsNormal (other t) = tt
normalize_value-IsNormal _ = refl

module _ {S : Type 0} (x : Extern S) where
  Ends-on_prepared : {A : Type 0} (f : Handle → S → A × S) → Ends (on_prepared f)
  unfolding on_prepared
  Ends-on_prepared f = record { at = λ s h. cc }

  ruleset ends =
      (Ends-pure, Ends-fail, Ends-state, Ends-check, Ends-bind, Ends-if, Ends-on_prepared)

  bind_state-Ends : (i : ℕ) (b : Bool) → Ends (bind_state x i b)
  unfolding bind_state
  bind_state-Ends i b = search ends

  bind_driver_value-Ends :
      (i : ℕ) (v : Value) → is_driver_value v ≡ true → Ends (bind_value x 1 i v)
  unfolding bind_value
  bind_driver_value-Ends i nil h = search (ends, bind_state-Ends)
  bind_driver_value-Ends i (int64 v) h = search (ends, bind_state-Ends)
  bind_driver_value-Ends i (float64 v) h = search (ends, bind_state-Ends)
  bind_driver_value-Ends i (bool v) h = search (ends, bind_state-Ends)
  bind_driver_value-Ends i (string v) h = search (ends, bind_state-Ends)
  bind_driver_value-Ends i (bytes v) h = search (ends, bind_state-Ends)
  bind_driver_value-Ends i (time v) h = search (ends, bind_state-Ends)
  bind_driver_value-Ends i _ h = cc

  bind_other-Ends :
      (i : ℕ) (v : Value) (b : Value → Bool) (e : GoError)
      → Ends (lift (normalize_value v) >>= λ n. if b n then fail e else bind_value x 1 i n)
  bind_other-Ends i v b e =
      Ends-bind-lift (normalize_value v) _ (normal_ends _ (normalize_value-IsNormal v)) λ n p.
        Ends-if _ _ _ (Ends-fail e)
          (bind_driver_value-Ends i n (normal_value _ n (normalize_value-IsNormal v) p))

  bind_value-Ends : (i : ℕ) (v : Value) → Ends (bind_value x 2 i v)
  unfolding bind_value
  bind_value-Ends i nil = search (ends, bind_state-Ends)
  bind_value-Ends i (int64 v) = search (ends, bind_state-Ends)
  bind_value-Ends i (float64 v) = search (ends, bind_state-Ends)
  bind_value-Ends i (bool v) = search (ends, bind_state-Ends)
  bind_value-Ends i (string v) = search (ends, bind_state-Ends)
  bind_value-Ends i (bytes v) = search (ends, bind_state-Ends)
  bind_value-Ends i (time v) = search (ends, bind_state-Ends)
  bind_value-Ends i v = bind_other-Ends i v _ _

  index_ends : (arg : NamedValue) (e : StmtEnv S) → resolve_index x arg e ≢ diverges
  unfolding resolve_index
  index_ends arg e h = ground arith

  bind_args-Ends : (args : List NamedValue) → Ends (bind_args x args)
  unfolding bind_args bind_arg
  bind_args-Ends [] = search ends
  bind_args-Ends (arg ∷ args) =
      Ends-bind (bind_arg x arg) (λ _. bind_args x args)
        (Ends-bind state _ Ends-state
          λ e. Ends-bind-lift _ _ (index_ends arg e) (λ i _. bind_value-Ends i arg.value))
        (λ _. bind_args-Ends args)

  pub bind_named_values-Ends : (args : List NamedValue) → Ends (bind_named_values x args)
  unfolding bind_named_values
  bind_named_values-Ends args = search (ends, bind_args-Ends) depth 20

  pub take_result_ends :
      (ctx : Context) (r : Bool × ℕ) (e : Env S) → (take_result x ctx r e).0 ≢ diverges
  unfolding take_result call check_context check ◌>>=◌
  take_result_ends ctx (true, r) e h = cc
  take_result_ends no_context (false, r) e h = cc
  take_result_ends background (false, r) e h = cc
  take_result_ends (cancellable c) (false, r) e h = ground arith

  pub exec_bound-Ends : (ctx : Context) → Ends (exec_bound x ctx)
  unfolding exec_bound execute on_prepared in_env ◌>>=◌
  exec_bound-Ends ctx = record { at = λ e. take_result_ends ctx _ _ }
