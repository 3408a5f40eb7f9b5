-- ===== src/Duckdb/Stmt/Keeps.antt =====
-- duckdb.go: what a statement does leaves the statements and results of the library as they are.
use purego_gen.Prelude.{
  ℕ, zero, suc, ◌≡◌, refl, ◌∙◌, ap, Bool, true, false, List, [], ◌∷◌, some, arith,
}
use purego_gen.Go.{
  errorf, str, GoError, Value, nil, int64, float64, bool, string, bytes, time, NamedValue, Context,
  no_context, background, cancellable,
}
use purego_gen.Go.Exec.{check, fail, ◌>>=◌}
use purego_gen.Go.Keeps.{Keeps, Keeps-bind, keeps_rules}
use purego_gen.Sqlite3.Extern.{dropped}
use purego_gen.Sqlite3.Conn.Leaks.{dropped-added}
use purego_gen.Duckdb.Extern.{Extern, Binding, KeepsObjects}
use purego_gen.Duckdb.State.{DuckdbResult, Stmt, Env, StmtEnv, in_env}
use purego_gen.Duckdb.Stmt.{
  call, on_prepared, check_context, bind_state, bind_value, bind_arg, bind_args, bind_named_values,
  take_result, execute, exec_bound,
}

module _ {S : Type 0} {x : Extern S} {stmts results : S → List ℕ}
    (law : KeepsObjects x stmts results) where
  -- What the library holds, and the statement object.
  abbrev pub objects : StmtEnv S → List ℕ × List ℕ × Stmt
  objects e = (stmts e.lib, results e.lib, e.stmt)

  bind-Keeps : (i : ℕ) (b : Binding) → Keeps objects (on_prepared (λ h. x.bind_value h i b))
  unfolding on_prepared
  bind-Keeps i b = record {
    at = λ e. ground (
      arith,
      law.bind_stmts e.stmt.prepared i b e.lib,
      law.bind_results e.stmt.prepared i b e.lib,
    );
  }

  clear-Keeps : Keeps objects (on_prepared x.clear_bindings)
  unfolding on_prepared
  clear-Keeps = record {
    at = λ e.
        ground
          (arith, law.clear_stmts e.stmt.prepared e.lib, law.clear_results e.stmt.prepared e.lib);
  }

  bind_state-Keeps : (i : ℕ) (b : Bool) → Keeps objects (bind_state x i b)
  unfolding bind_state
  bind_state-Keeps i b = search keeps_rules

  ruleset calls = (keeps_rules, bind_state-Keeps, bind-Keeps, clear-Keeps)

  bind_value-Keeps : (depth i : ℕ) (v : Value) → Keeps objects (bind_value x depth i v)
  unfolding bind_value
  bind_value-Keeps zero i v = search keeps_rules
  bind_value-Keeps (suc depth) i nil = search calls
  bind_value-Keeps (suc depth) i (int64 v) = search calls
  bind_value-Keeps (suc depth) i (float64 v) = search calls
  bind_value-Keeps (suc depth) i (bool v) = search calls
  bind_value-Keeps (suc depth) i (string v) = search calls
  bind_value-Keeps (suc depth) i (bytes v) = search calls
  bind_value-Keeps (suc depth) i (time v) = search calls
  bind_value-Keeps (suc depth) i v = search (calls, bind_value-Keeps depth)

  bind_arg-Keeps : (arg : NamedValue) → Keeps objects (bind_arg x arg)
  unfolding bind_arg
  bind_arg-Keeps arg = search (keeps_rules, bind_value-Keeps)

  bind_args-Keeps : (args : List NamedValue) → Keeps objects (bind_args x args)
  unfolding bind_args
  bind_args-Keeps [] = search keeps_rules
  bind_args-Keeps (arg ∷ args) =
      Keeps-bind (bind_arg x arg) _ (bind_arg-Keeps arg) (λ _. bind_args-Keeps args)

  pub bind_named_values-Keeps : (args : List NamedValue) → Keeps objects (bind_named_values x args)
  unfolding bind_named_values
  bind_named_values-Keeps args = search (calls, bind_args-Keeps) depth 20

  destroy_result_lem :
      (r : ℕ) (l : List ℕ) (s : S)
      → results s ≡ r ∷ l
      → (stmts (x.destroy_result r s) ≡ stmts s) × (results (x.destroy_result r s) ≡ l)
  destroy_result_lem r l s h = (
    law.destroy_result_stmts r s,
    law.destroy_result_results r s ∙ ap (dropped (some r)) h ∙ dropped-added (some r) l,
  )

  check_context_state : (ctx : Context) (e : Env S) → (check_context x ctx e).1 ≡ e
  unfolding check_context check
  check_context_state no_context e = refl
  check_context_state background e = refl
  check_context_state (cancellable c) e = ground arith

  then_fail_state :
      (ctx : Context) (f : GoError) (e : Env S)
      → ((check_context x ctx >>= λ _. fail {A = DuckdbResult} f) e).1 ≡ e
  unfolding ◌>>=◌ fail
  then_fail_state ctx f e = ground (arith, check_context_state ctx e)

  pub take_result_lem :
      (ctx : Context) (r : Bool × ℕ) (e : Env S) (l : List ℕ)
      → results e.lib ≡ r.1 ∷ l
      → (stmts (take_result x ctx r e).1.lib ≡ stmts e.lib)
        × (results (take_result x ctx r e).1.lib ≡ l)
  unfolding take_result call ◌>>=◌
  take_result_lem ctx (true, r) e l h = destroy_result_lem r l e.lib h
  take_result_lem ctx (false, r) e l h =
      rw
        (then_fail_state ctx (errorf "duckdb: exec: %s" (str (x.result_error r e.lib) ∷ []))
          (record e { lib = x.destroy_result r e.lib }))
        (destroy_result_lem r l e.lib h)

  pub exec_bound-Keeps : (ctx : Context) → Keeps objects (exec_bound x ctx)
  unfolding exec_bound execute on_prepared in_env ◌>>=◌
  exec_bound-Keeps ctx = record {
    at = λ e.
        let s = (x.execute_prepared e.stmt.prepared e.lib).2 in
        let t =
          take_result_lem ctx
            (
              (x.execute_prepared e.stmt.prepared e.lib).0,
              (x.execute_prepared e.stmt.prepared e.lib).1,
            )
            (record e.env { lib = s }) (results e.lib)
            (law.execute_results e.stmt.prepared e.lib) in
        ground (arith, t.0, t.1, law.execute_stmts e.stmt.prepared e.lib);
  }
