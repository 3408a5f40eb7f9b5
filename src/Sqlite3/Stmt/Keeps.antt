-- ===== src/Sqlite3/Stmt/Keeps.antt =====
-- sqlite3.go: binding, stepping and resetting leave the statement object, its connection and any
-- part of the library's state that these calls leave alone, as they are.
use purego_gen.Prelude.{
  ℕ, zero, suc, ◌≡◌, refl, ◌∙◌, Bool, true, false, List, [], ◌∷◌, Option, none, some, if◌then◌else◌,
}
use purego_gen.Prelude.Int.{ℤ}
use purego_gen.Go.{
  Value, nil, int64, float64, bool, string, bytes, time, NamedValue, GoError, Context,
}
use purego_gen.Go.Exec.{
  Exec, Outcome, ok, err, panics, diverges, pure, fail, lift, gets, state, continue, ◌>>=◌, check,
}
use purego_gen.Sqlite3.Extern.{Extern, Handle, Binding, IsSilent}
use purego_gen.Sqlite3.State.{StmtEnv}
use purego_gen.Sqlite3.Bind.{
  on_handle, bind_result, bind_value, bind_arg, bind_args, bind_named_values,
}
use purego_gen.Sqlite3.Stmt.{fail_with, step_loop, exec_bound}

module _ {S V : Type 0} (view : S → V) where
  pub record Same (e v : StmtEnv S) : Type 0 where
    pub same_view : view v.lib ≡ view e.lib
    pub same_stmt : v.stmt ≡ e.stmt
    pub same_conn : v.conn ≡ e.conn

  pub record Keeps {A : Type 0} (m : Exec (StmtEnv S) A) : Type 0 where
    pub at : (e : StmtEnv S) → Same e (m e).1

module _ {S V : Type 0} {view : S → V} where
  Same-refl : (e : StmtEnv S) → Same view e e
  Same-refl e = record { same_view = refl; same_stmt = refl; same_conn = refl }

  Same-trans : {e u v : StmtEnv S} → Same view e u → Same view u v → Same view e v
  Same-trans p q = record {
    same_view = q.same_view ∙ p.same_view;
    same_stmt = q.same_stmt ∙ p.same_stmt;
    same_conn = q.same_conn ∙ p.same_conn;
  }

  pub Keeps-pure : {A : Type 0} (a : A) → Keeps view (pure a)
  unfolding pure
  Keeps-pure a = record { at = Same-refl }

  pub Keeps-raise : {A : Type 0} (c : GoError) → Keeps view (fail {A = A} c)
  unfolding fail
  Keeps-raise c = record { at = Same-refl }

  pub Keeps-lift : {A : Type 0} (r : Outcome A) → Keeps view (lift r)
  unfolding lift
  Keeps-lift r = record { at = Same-refl }

  pub Keeps-gets : {A : Type 0} (f : StmtEnv S → A) → Keeps view (gets f)
  unfolding gets
  Keeps-gets f = record { at = Same-refl }

  pub Keeps-state : Keeps view state
  unfolding state
  Keeps-state = record { at = Same-refl }

  pub Keeps-check : (o : Option GoError) → Keeps view (check o)
  unfolding check
  Keeps-check none = record { at = Same-refl }
  Keeps-check (some e) = record { at = Same-refl }

  pub Keeps-fail_with : {A : Type 0} (o : Option GoError) → Keeps view (fail_with {A = A} o)
  unfolding fail_with
  Keeps-fail_with none = record { at = Same-refl }
  Keeps-fail_with (some e) = record { at = Same-refl }

  continue-Same :
      {A B : Type 0} (r : Outcome A) (f : A → Exec (StmtEnv S) B) (e v : StmtEnv S)
      → ((a : A) → Keeps view (f a))
      → Same view e v
      → Same view e (continue r f v).1
  continue-Same (ok a) f e v k h = Same-trans h ((k a).at v)
  continue-Same (err c) f e v k h = h
  continue-Same panics f e v k h = h
  continue-Same diverges f e v k h = h

  pub Keeps-bind :
      {A B : Type 0} (m : Exec (StmtEnv S) A) (f : A → Exec (StmtEnv S) B)
      → Keeps view m
      → ((a : A) → Keeps view (f a))
      → Keeps view (m >>= f)
  unfolding ◌>>=◌
  Keeps-bind m f km kf = record { at = λ e. continue-Same (m e).0 f e (m e).1 kf (km.at e) }

  pub Keeps-if :
      {A : Type 0} (b : Bool) (m n : Exec (StmtEnv S) A)
      → Keeps view m
      → Keeps view n
      → Keeps view (if b then m else n)
  Keeps-if true m n km kn = km
  Keeps-if false m n km kn = kn

  -- A call of a library function that leaves the set of statements alone.
  pub Keeps-on_handle :
      {A : Type 0} (f : Handle → S → A × S)
      → ((h : Handle) (s : S) → view (f h s).1 ≡ view s)
      → Keeps view (on_handle f)
  unfolding on_handle
  Keeps-on_handle f k = record {
    at = λ e. record { same_view = k e.stmt.handle e.lib; same_stmt = refl; same_conn = refl };
  }

pub ruleset keeps_rules = (
  Keeps-pure, Keeps-raise, Keeps-lift, Keeps-gets, Keeps-state, Keeps-check, Keeps-fail_with,
  Keeps-bind, Keeps-if,
)

module _ {S V : Type 0} {x : Extern S} {view : S → V} (law : IsSilent x view) where
  bind_result-Keeps : (rc : ℤ) → Keeps view (bind_result x rc)
  unfolding bind_result
  bind_result-Keeps rc = search keeps_rules

  bind-Keeps : (i : ℤ) (b : Binding) → Keeps view (on_handle (λ h. x.bind_value h i b))
  bind-Keeps i b = Keeps-on_handle _ (λ h. law.bind_value_view h i b)

  reset-Keeps : Keeps view (on_handle x.reset)
  reset-Keeps = Keeps-on_handle _ law.reset_view

  clear-Keeps : Keeps view (on_handle x.clear_bindings)
  clear-Keeps = Keeps-on_handle _ law.clear_bindings_view

  step-Keeps : Keeps view (on_handle x.step)
  step-Keeps = Keeps-on_handle _ law.step_view

  ruleset calls = (keeps_rules, bind_result-Keeps, bind-Keeps, reset-Keeps, clear-Keeps, step-Keeps)

  bind_value-Keeps : (depth : ℕ) (i : ℤ) (v : Value) → Keeps view (bind_value x depth i v)
  unfolding bind_value
  bind_value-Keeps zero i v = search keeps_rules
  bind_value-Keeps (suc depth) i nil = search calls
  bind_value-Keeps (suc depth) i (int64 v) = search calls
  bind_value-Keeps (suc depth) i (float64 v) = search calls
  bind_value-Keeps (suc depth) i (bool v) = search calls
  bind_value-Keeps (suc depth) i (string v) = search calls
  bind_value-Keeps (suc depth) i (bytes v) = search calls
  bind_value-Keeps (suc depth) i (time v) = search calls
  bind_value-Keeps (suc depth) i v = search (calls, bind_value-Keeps depth)

  bind_arg-Keeps : (arg : NamedValue) → Keeps view (bind_arg x arg)
  unfolding bind_arg
  bind_arg-Keeps arg = search (keeps_rules, bind_value-Keeps)

  bind_args-Keeps : (args : List NamedValue) → Keeps view (bind_args x args)
  unfolding bind_args
  bind_args-Keeps [] = search keeps_rules
  bind_args-Keeps (arg ∷ args) =
      Keeps-bind (bind_arg x arg) (λ _. bind_args x args) (bind_arg-Keeps arg)
        (λ _. bind_args-Keeps args)

  pub bind_named_values-Keeps : (args : List NamedValue) → Keeps view (bind_named_values x args)
  unfolding bind_named_values
  bind_named_values-Keeps args = search (calls, bind_args-Keeps) depth 20

  step_loop-Keeps : (fuel : ℕ) (ctx : Context) (w : Option ℕ) → Keeps view (step_loop x fuel ctx w)
  unfolding step_loop
  step_loop-Keeps zero ctx w = search keeps_rules
  step_loop-Keeps (suc fuel) ctx w = search (calls, step_loop-Keeps fuel) depth 12

  pub exec_bound-Keeps : (fuel : ℕ) (ctx : Context) → Keeps view (exec_bound x fuel ctx)
  unfolding exec_bound
  exec_bound-Keeps fuel ctx = search (keeps_rules, step_loop-Keeps)
