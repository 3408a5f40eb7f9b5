-- ===== src/Duckdb/Conn/Leaks.antt =====
-- duckdb.go: the statements and results that the methods of a connection make are destroyed again.
use purego_gen.Prelude.{
  ℕ, ◌≡◌, refl, ◌≢◌, ◌∙◌, ap, Bool, true, false, List, [], ◌∷◌, arith, Option-cases, inl, inr,
}
use purego_gen.Prelude.Text.{Text}
use purego_gen.Go.{NamedValue, Context, no_context, background, cancellable}
use purego_gen.Go.Exec.{Exec, check, Outcome, ok, err, panics, diverges, ◌>>=◌, continue, deferred}
use purego_gen.Sqlite3.Bind.Total.{Ends, Ends-bind, Ends-continue}
use purego_gen.Duckdb.Stmt.Ends.{bind_named_values-Ends, exec_bound-Ends, take_result_ends}
use purego_gen.Go.Keeps.{Keeps, Keeps-bind}
use purego_gen.Sqlite3.Extern.{Handle, added, dropped}
use purego_gen.Sqlite3.Conn.Leaks.{dropped-added}
use purego_gen.Duckdb.Extern.{Extern, KeepsObjects}
use purego_gen.Duckdb.State.{Stmt, Env, StmtEnv, run_stmt}
use purego_gen.Duckdb.Stmt.{
  check_usable, call, check_context, close_stmt, bind_named_values, exec_bound,
}
use purego_gen.Duckdb.Conn.{
  call_prepare, prepared, prepare_as, exec_transient, call_query, exec_direct, exec_conn,
}
use purego_gen.Duckdb.Stmt.Keeps.{
  objects, bind_named_values-Keeps, exec_bound-Keeps, take_result_lem,
}

module _ {S : Type 0} (x : Extern S) where
  body-Ends :
      (ctx : Context) (args : List NamedValue)
      → Ends (bind_named_values x args >>= λ _. exec_bound x ctx)
  body-Ends ctx args = Ends-bind _ _ (bind_named_values-Ends x args) (λ _. exec_bound-Ends x ctx)

  prepare_as_ends :
      (b : Bool) (ctx : Context) (q : Text) (e : Env S) → (prepare_as x b ctx q e).0 ≢ diverges
  unfolding prepare_as check_context check call_prepare prepared call ◌>>=◌
  prepare_as_ends b no_context q e h = ground arith
  prepare_as_ends b background q e h = ground arith
  prepare_as_ends b (cancellable c) q e h = ground arith

  run_stmt-Ends :
      {A : Type 0} (m : Exec (StmtEnv S) A) (st : Stmt)
      → Ends m
      → Ends (run_stmt st (deferred m (close_stmt x)))
  unfolding run_stmt deferred
  run_stmt-Ends m st k = record { at = λ e h. ground (arith, k.at (record { env = e; stmt = st })) }

  exec_transient_ends :
      (ctx : Context) (q : Text) (args : List NamedValue) (e : Env S)
      → (exec_transient x ctx q args e).0 ≢ diverges
  unfolding exec_transient ◌>>=◌
  exec_transient_ends ctx q args e =
      Ends-continue (prepare_as x true ctx q e).0 _ (prepare_as x true ctx q e).1
        (prepare_as_ends true ctx q e) λ st _. run_stmt-Ends _ st (body-Ends ctx args)

  exec_direct_ends : (ctx : Context) (q : Text) (e : Env S) → (exec_direct x ctx q e).0 ≢ diverges
  unfolding exec_direct call_query ◌>>=◌
  exec_direct_ends ctx q e = take_result_ends x ctx _ _

module _ {S : Type 0} {x : Extern S} {stmts results : S → List ℕ}
    (law : KeepsObjects x stmts results) where
  -- What is left of the statements and results `l` and `r` of before: after an error all of them and no
  -- more, after a success the prepared statement too.
  abbrev pub Prepares : Outcome Stmt → S → List ℕ → List ℕ → Type 0
  Prepares (ok st) s l r =
      (stmts s ≡ added st.prepared l) × (results s ≡ r) × (st.stmt_closed ≡ false)
  Prepares o s l r = (stmts s ≡ l) × (results s ≡ r)

  prepared-Prepares :
      (b : Bool) (r : Bool × Handle) (e : Env S) (l m : List ℕ)
      → stmts e.lib ≡ added r.1 l
      → results e.lib ≡ m
      → Prepares (prepared x b r e).0 (prepared x b r e).1.lib l m
  unfolding prepared call ◌>>=◌
  prepared-Prepares b (true, h) e l m p q = (p, q, refl)
  prepared-Prepares b (false, h) e l m p q = (
    law.destroy_prepare_stmts h e.lib ∙ ap (dropped h) p ∙ dropped-added h l,
    law.destroy_prepare_results h e.lib ∙ q,
  )

  call_prepare-Prepares :
      (b : Bool) (q : Text) (e : Env S)
      → let m = (call_prepare x q >>= prepared x b) e in
        Prepares m.0 m.1.lib (stmts e.lib) (results e.lib)
  unfolding call_prepare ◌>>=◌
  call_prepare-Prepares b q e =
      let r = x.prepare e.conn.handle q e.lib in
      prepared-Prepares b (r.0, r.1) (record e { lib = r.2 }) (stmts e.lib) (results e.lib)
        (law.prepare_stmts e.conn.handle q e.lib) (law.prepare_results e.conn.handle q e.lib)

  context-Prepares :
      (b : Bool) (ctx : Context) (q : Text) (e : Env S)
      → let m = (check_context x ctx >>= λ _. call_prepare x q >>= prepared x b) e in
        Prepares m.0 m.1.lib (stmts e.lib) (results e.lib)
  unfolding check_context check ◌>>=◌
  context-Prepares b no_context q e = (refl, refl)
  context-Prepares b background q e = call_prepare-Prepares b q e
  context-Prepares b (cancellable c) q e = elim (Option-cases (x.cancelled c e.lib)) [
    | inl going ↦ simp going (call_prepare-Prepares b q e)
    | inr (why, done) ↦ simp done (refl, refl)
  ]

  prepare_as-Prepares :
      (b : Bool) (ctx : Context) (q : Text) (e : Env S)
      → Prepares
          (prepare_as x b ctx q e).0
          (prepare_as x b ctx q e).1.lib
          (stmts e.lib)
          (results e.lib)
  unfolding prepare_as ◌>>=◌
  prepare_as-Prepares b ctx q e = elim (Option-cases (check_usable e.conn)) [
    | inl usable ↦ simp usable (context-Prepares b ctx q e)
    | inr (f, unusable) ↦ simp unusable (refl, refl)
  ]

  body-Keeps :
      (ctx : Context) (args : List NamedValue)
      → Keeps (objects law) (bind_named_values x args >>= λ _. exec_bound x ctx)
  body-Keeps ctx args =
      Keeps-bind _ _ (bind_named_values-Keeps law args) (λ _. exec_bound-Keeps law ctx)

  close_stmt_lem :
      (e : StmtEnv S)
      → e.stmt.stmt_closed ≡ false
      → (stmts (close_stmt x e).1.lib ≡ dropped e.stmt.prepared (stmts e.lib))
        × (results (close_stmt x e).1.lib ≡ results e.lib)
  unfolding close_stmt
  close_stmt_lem e h = simp h (
    law.destroy_prepare_stmts e.stmt.prepared e.lib,
    law.destroy_prepare_results e.stmt.prepared e.lib,
  )

  -- The deferred Close, after calls that keep the objects.
  deferred_lem :
      {A : Type 0} (m : Exec (StmtEnv S) A) (e : StmtEnv S)
      → Keeps (objects law) m
      → e.stmt.stmt_closed ≡ false
      → (m e).0 ≢ diverges
      → (stmts (deferred m (close_stmt x) e).1.lib ≡ dropped e.stmt.prepared (stmts e.lib))
        × (results (deferred m (close_stmt x) e).1.lib ≡ results e.lib)
  unfolding deferred
  deferred_lem m e k h n = let same = k.at e in ground (arith, close_stmt_lem (m e).1, same)

  after_prepare :
      {A : Type 0} (r : Outcome Stmt) (e : Env S) (l t : List ℕ) (m : Exec (StmtEnv S) A)
      → Keeps (objects law) m
      → Ends m
      → Prepares r e.lib l t
      → let run = continue r (λ st. run_stmt st (deferred m (close_stmt x))) e in
        (stmts run.1.lib ≡ l) × (results run.1.lib ≡ t)
  unfolding run_stmt
  after_prepare (ok st) e l t m k n h =
      let v : StmtEnv S = record { env = e; stmt = st } in
      let done = deferred_lem m v k h.2 (n.at v) in
      (done.0 ∙ ap (dropped st.prepared) h.0 ∙ dropped-added st.prepared l, done.1 ∙ h.1)
  after_prepare (err f) e l t m k n h = h
  after_prepare panics e l t m k n h = h
  after_prepare diverges e l t m k n h = h

  exec_transient_lem :
      (ctx : Context) (q : Text) (args : List NamedValue) (e : Env S)
      → (stmts (exec_transient x ctx q args e).1.lib ≡ stmts e.lib)
        × (results (exec_transient x ctx q args e).1.lib ≡ results e.lib)
  unfolding exec_transient ◌>>=◌
  exec_transient_lem ctx q args e =
      after_prepare (prepare_as x true ctx q e).0 (prepare_as x true ctx q e).1 (stmts e.lib)
        (results e.lib) _ (body-Keeps ctx args) (body-Ends x ctx args)
        (prepare_as-Prepares true ctx q e)

  exec_direct_lem :
      (ctx : Context) (q : Text) (e : Env S)
      → (stmts (exec_direct x ctx q e).1.lib ≡ stmts e.lib)
        × (results (exec_direct x ctx q e).1.lib ≡ results e.lib)
  unfolding exec_direct call_query ◌>>=◌
  exec_direct_lem ctx q e =
      let r = x.query e.conn.handle q e.lib in
      let taken =
        take_result_lem law ctx (r.0, r.1) (record e { lib = r.2 }) (results e.lib)
          (law.query_results e.conn.handle q e.lib) in
      (taken.0 ∙ law.query_stmts e.conn.handle q e.lib, taken.1)

  -- ExecContext, with or without arguments, returns, and on every path it destroys the statement that it
  -- prepares and the result that it fills: the statements and the results are those from before.
  pub exec_conn_leaves_none :
      (ctx : Context) (q : Text) (args : List NamedValue) (e : Env S)
      → ((exec_conn x ctx q args e).0 ≢ diverges)
        × (stmts (exec_conn x ctx q args e).1.lib ≡ stmts e.lib)
        × (results (exec_conn x ctx q args e).1.lib ≡ results e.lib)
  unfolding exec_conn
  exec_conn_leaves_none ctx q [] e =
      let same = exec_direct_lem ctx q e in (exec_direct_ends x ctx q e, same.0, same.1)
  exec_conn_leaves_none ctx q (arg ∷ args) e =
      let same = exec_transient_lem ctx q (arg ∷ args) e in
      (exec_transient_ends x ctx q (arg ∷ args) e, same.0, same.1)
