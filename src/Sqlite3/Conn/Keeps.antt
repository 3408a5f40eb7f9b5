-- ===== src/Sqlite3/Conn/Keeps.antt =====
-- sqlite3.go: calls on a connection leave it, and the open databases, as they are.
use purego_gen.Prelude.{
  ℕ, ◌≡◌, refl, ◌∙◌, Bool, true, false, List, [], Option, none, some, arith, if◌then◌else◌,
}
use purego_gen.Prelude.Int.{ℤ}
use purego_gen.Prelude.Text.{Text, is_empty}
use purego_gen.Go.{NamedValue, GoError, Context, no_context, background, cancellable}
use purego_gen.Go.Exec.{
  Exec, Outcome, ok, err, panics, diverges, pure, state, ◌>>=◌, check, continue, deferred,
}
use purego_gen.Sqlite3.Extern.{Extern, KeepsDbs}
use purego_gen.Sqlite3.State.{Stmt, Env, StmtEnv, on_lib, run_stmt}
use purego_gen.Sqlite3.Bind.{bind_named_values, on_handle, bind_result}
use purego_gen.Sqlite3.Stmt.{close_stmt, exec_bound}
use purego_gen.Sqlite3.Stmt.Keeps.{Keeps, Keeps-bind, bind_named_values-Keeps, exec_bound-Keeps}
use purego_gen.Sqlite3.Conn.{
  prepare_as, check_context, call_prepare, exec_transient, check_result, apply_pragmas,
  foreign_keys_pragma, text_pragma, set_busy_timeout,
}

-- A call that leaves the connection, and a part of the library's state, as they are.
pub record KeepsConn {S V A : Type 0} (view : S → V) (m : Exec (Env S) A) : Type 0 where
  pub same_view : (e : Env S) → view (m e).1.lib ≡ view e.lib
  pub same_conn : (e : Env S) → (m e).1.conn ≡ e.conn

abbrev SameEnv : {S V : Type 0} → (S → V) → Env S → Env S → Type 0
SameEnv view e v = (view v.lib ≡ view e.lib) × (v.conn ≡ e.conn)

module _ {S V : Type 0} {view : S → V} where
  pub KeepsConn-pure : {A : Type 0} (a : A) → KeepsConn view (pure a)
  unfolding pure
  KeepsConn-pure a = record { same_view = λ e. refl; same_conn = λ e. refl }

  KeepsConn-state : KeepsConn view state
  unfolding state
  KeepsConn-state = record { same_view = λ e. refl; same_conn = λ e. refl }

  KeepsConn-check : (o : Option GoError) → KeepsConn view (check o)
  unfolding check
  KeepsConn-check none = record { same_view = λ e. refl; same_conn = λ e. refl }
  KeepsConn-check (some f) = record { same_view = λ e. refl; same_conn = λ e. refl }

  continue-same :
      {A B : Type 0} (r : Outcome A) (f : A → Exec (Env S) B) (e v : Env S)
      → ((a : A) → KeepsConn view (f a))
      → SameEnv view e v
      → SameEnv view e (continue r f v).1
  continue-same (ok a) f e v k h = ((k a).same_view v ∙ h.0, (k a).same_conn v ∙ h.1)
  continue-same (err c) f e v k h = h
  continue-same panics f e v k h = h
  continue-same diverges f e v k h = h

  KeepsConn-bind :
      {A B : Type 0} (m : Exec (Env S) A) (f : A → Exec (Env S) B)
      → KeepsConn view m
      → ((a : A) → KeepsConn view (f a))
      → KeepsConn view (m >>= f)
  unfolding ◌>>=◌
  KeepsConn-bind m f km kf = record {
    same_view = λ e. (continue-same (m e).0 f e (m e).1 kf (km.same_view e, km.same_conn e)).0;
    same_conn = λ e. (continue-same (m e).0 f e (m e).1 kf (km.same_view e, km.same_conn e)).1;
  }

  KeepsConn-if :
      {A : Type 0} (b : Bool) (m n : Exec (Env S) A)
      → KeepsConn view m
      → KeepsConn view n
      → KeepsConn view (if b then m else n)
  KeepsConn-if true m n km kn = km
  KeepsConn-if false m n km kn = kn

  KeepsConn-on_lib :
      {A : Type 0} (f : S → A × S) → ((s : S) → view (f s).1 ≡ view s) → KeepsConn view (on_lib f)
  unfolding on_lib
  KeepsConn-on_lib f k = record { same_view = λ e. k e.lib; same_conn = λ e. refl }

ruleset conn_rules =
    (KeepsConn-pure, KeepsConn-state, KeepsConn-check, KeepsConn-bind, KeepsConn-if)

module _ {S : Type 0} {x : Extern S} {opened : S → List ℕ} (law : KeepsDbs x opened) where
  prepare-opened :
      (b : Bool) (ctx : Context) (q : Text) (e : Env S)
      → (opened (prepare_as x b ctx q e).1.lib ≡ opened e.lib)
        × ((prepare_as x b ctx q e).1.conn ≡ e.conn)
  unfolding prepare_as check_context call_prepare ◌>>=◌
  prepare-opened b no_context q e = ground arith
  prepare-opened b background q e = ground (arith, law.prepare_opened e.conn.db q e.lib)
  prepare-opened b (cancellable c) q e = ground (arith, law.prepare_opened e.conn.db q e.lib)

  pub prepare-KeepsConn :
      (b : Bool) (ctx : Context) (q : Text) → KeepsConn opened (prepare_as x b ctx q)
  prepare-KeepsConn b ctx q = record {
    same_view = λ e. (prepare-opened b ctx q e).0;
    same_conn = λ e. (prepare-opened b ctx q e).1;
  }

  close_stmt-opened :
      (v : StmtEnv S)
      → (opened (close_stmt x v).1.lib ≡ opened v.lib) × ((close_stmt x v).1.conn ≡ v.conn)
  unfolding close_stmt on_handle bind_result ◌>>=◌
  close_stmt-opened v = ground (arith, law.finalize_opened v.stmt.handle v.lib)

  body-Keeps :
      (fuel : ℕ) (ctx : Context) (args : List NamedValue)
      → Keeps opened (bind_named_values x args >>= λ _. exec_bound x fuel ctx)
  body-Keeps fuel ctx args =
      Keeps-bind _ _ (bind_named_values-Keeps law.silent args)
        λ _. exec_bound-Keeps law.silent fuel ctx

  deferred-opened :
      {A : Type 0} (m : Exec (StmtEnv S) A) (st : Stmt) (e : Env S)
      → Keeps opened m
      → let r = run_stmt st (deferred m (close_stmt x)) e in
        (opened r.1.lib ≡ opened e.lib) × (r.1.conn ≡ e.conn)
  unfolding run_stmt deferred
  deferred-opened m st e k =
      let v : StmtEnv S = record { env = e; stmt = st } in
      ground (arith, (k.at v).same_view, (k.at v).same_conn, close_stmt-opened (m v).1)

  exec-KeepsConn :
      (fuel : ℕ) (ctx : Context) (q : Text) (args : List NamedValue)
      → KeepsConn opened (exec_transient x fuel ctx q args)
  unfolding exec_transient
  exec-KeepsConn fuel ctx q args = KeepsConn-bind _ _ (prepare-KeepsConn true ctx q) λ st. record {
    same_view = λ e. (deferred-opened _ st e (body-Keeps fuel ctx args)).0;
    same_conn = λ e. (deferred-opened _ st e (body-Keeps fuel ctx args)).1;
  }

  foreign_keys-KeepsConn :
      (fuel : ℕ) (o : Option Bool) → KeepsConn opened (foreign_keys_pragma x fuel o)
  unfolding foreign_keys_pragma
  foreign_keys-KeepsConn fuel none = search conn_rules
  foreign_keys-KeepsConn fuel (some true) = search (conn_rules, exec-KeepsConn)
  foreign_keys-KeepsConn fuel (some false) = search (conn_rules, exec-KeepsConn)

  text_pragma-KeepsConn : (fuel : ℕ) (name t : Text) → KeepsConn opened (text_pragma x fuel name t)
  unfolding text_pragma
  text_pragma-KeepsConn fuel name t =
      KeepsConn-if (is_empty t) _ _ (KeepsConn-pure tt)
        (KeepsConn-bind _ _ (exec-KeepsConn fuel background _ []) (λ _. KeepsConn-pure tt))

  pub pragmas-KeepsConn : (fuel : ℕ) → KeepsConn opened (apply_pragmas x fuel)
  unfolding apply_pragmas
  pragmas-KeepsConn fuel = search (conn_rules, foreign_keys-KeepsConn, text_pragma-KeepsConn)

  pub check-KeepsConn : (rc : ℤ) → KeepsConn opened (check_result x rc)
  unfolding check_result
  check-KeepsConn rc = search conn_rules

  pub timeout-KeepsConn : KeepsConn opened (set_busy_timeout x)
  unfolding set_busy_timeout
  timeout-KeepsConn = KeepsConn-bind _ _ KeepsConn-state λ e.
      KeepsConn-if _ _ _
        (KeepsConn-bind _ _ (KeepsConn-on_lib _ (law.busy_timeout_opened _ _)) check-KeepsConn)
        (KeepsConn-pure tt)
