-- ===== src/Sqlite3/Conn/Leaks.antt =====
-- sqlite3.go: which prepared statements the methods of a connection leave behind.
use purego_gen.Prelude.{ℕ, ◌<◌, ◌≡◌, refl, ◌≢◌, ◌∙◌, ap, Bool, true, false, List, none, some, arith}
use purego_gen.Prelude.Text.{Text}
use purego_gen.Go.{NamedValue, Context, no_context, background, cancellable}
use purego_gen.Go.Exec.{Exec, Outcome, ok, err, panics, diverges, lift, ◌>>=◌, deferred, continue}
use purego_gen.Sqlite3.Extern.{Extern, Handle, KeepsStmts, YieldsFinitely, added, dropped}
use purego_gen.Sqlite3.State.{Stmt, Env, StmtEnv, run_stmt}
use purego_gen.Sqlite3.Bind.{bind_named_values, on_handle, bind_result}
use purego_gen.Sqlite3.Stmt.{close_stmt, exec_bound}
use purego_gen.Sqlite3.Stmt.Keeps.{Keeps, bind_named_values-Keeps, exec_bound-Keeps, Keeps-bind}
use purego_gen.Sqlite3.Bind.Total.{
  Ends, Ends-bind, Ends-continue, ends_rules, bind_named_values-Ends,
}
use purego_gen.Sqlite3.Stmt.Ends.{exec_bound-Ends}
use purego_gen.Sqlite3.Conn.{prepare_as, check_context, call_prepare, exec_transient}

pub dropped-added : (h : Handle) (l : List ℕ) → dropped h (added h l) ≡ l
dropped-added none l = refl
dropped-added (some h) l = ground arith

module _ {S : Type 0} {x : Extern S} {live : S → List ℕ} (law : KeepsStmts x live) where
  -- A statement that was prepared is in the set, open, and marked as the caller wants it; without
  -- one the set is as it was.
  abbrev pub Prepares : Bool → List ℕ → Outcome Stmt → S → Type 0
  Prepares b l (ok st) s =
      (live s ≡ added st.handle l) × (st.stmt_closed ≡ false) × (st.ephemeral ≡ b)
  Prepares b l (err f) s = live s ≡ l
  Prepares b l panics s = live s ≡ l
  Prepares b l diverges s = live s ≡ l

  pub prepare_as-Prepares :
      (b : Bool) (ctx : Context) (q : Text) (e : Env S)
      → Prepares b (live e.lib) (prepare_as x b ctx q e).0 (prepare_as x b ctx q e).1.lib
  unfolding prepare_as check_context call_prepare ◌>>=◌
  prepare_as-Prepares b no_context q e = ground arith
  prepare_as-Prepares b background q e =
      ground (arith, law.prepare_live e.conn.db q e.lib, law.prepare_fails e.conn.db q e.lib)
  prepare_as-Prepares b (cancellable c) q e =
      ground (arith, law.prepare_live e.conn.db q e.lib, law.prepare_fails e.conn.db q e.lib)

  -- Closing an open statement finalizes it, whatever code that returns.
  pub close_stmt-live :
      (v : StmtEnv S)
      → v.stmt.stmt_closed ≡ false
      → live (close_stmt x v).1.lib ≡ dropped v.stmt.handle (live v.lib)
  unfolding close_stmt on_handle bind_result ◌>>=◌
  close_stmt-live v h = ground (arith, law.finalize_live v.stmt.handle v.lib)

  body-Keeps :
      (fuel : ℕ) (ctx : Context) (args : List NamedValue)
      → Keeps live (bind_named_values x args >>= λ _. exec_bound x fuel ctx)
  body-Keeps fuel ctx args =
      Keeps-bind _ _ (bind_named_values-Keeps law.silent args)
        λ _. exec_bound-Keeps law.silent fuel ctx

  -- A method call followed by the deferred Close: if the call returns, the statement is gone.
  deferred-live :
      {A : Type 0} (m : Exec (StmtEnv S) A) (v : StmtEnv S)
      → Keeps live m
      → v.stmt.stmt_closed ≡ false
      → (deferred m (close_stmt x) v).0 ≢ diverges
      → live (deferred m (close_stmt x) v).1.lib ≡ dropped v.stmt.handle (live v.lib)
  unfolding deferred
  deferred-live m v k h n =
      ground (arith, close_stmt-live (m v).1, (k.at v).same_view, (k.at v).same_stmt)

  after_prepare :
      {A : Type 0} (r : Outcome Stmt) (e : Env S) (l : List ℕ) (m : Exec (StmtEnv S) A)
      → Keeps live m
      → Prepares true l r e.lib
      → let run = continue r (λ st. run_stmt st (deferred m (close_stmt x))) e in
        run.0 ≢ diverges → live run.1.lib ≡ l
  unfolding run_stmt
  after_prepare (ok st) e l m k h n =
      deferred-live m (record { env = e; stmt = st }) k h.1 n
      ∙ ap (dropped st.handle) h.0
      ∙ dropped-added st.handle l
  after_prepare (err f) e l m k h n = h
  after_prepare panics e l m k h n = h
  after_prepare diverges e l m k h n = h

  -- The statement of a query that returns no rows does not outlive it: whether it fails to prepare, to
  -- bind or to run, or succeeds, the prepared statements are those from before.
  pub exec_transient_live :
      (fuel : ℕ) (ctx : Context) (q : Text) (args : List NamedValue) (e : Env S)
      → (exec_transient x fuel ctx q args e).0 ≢ diverges
      → live (exec_transient x fuel ctx q args e).1.lib ≡ live e.lib
  unfolding exec_transient ◌>>=◌
  exec_transient_live fuel ctx q args e n =
      after_prepare (prepare_as x true ctx q e).0 (prepare_as x true ctx q e).1 (live e.lib) _
        (body-Keeps fuel ctx args) (prepare_as-Prepares true ctx q e) n

-- The calls on the way to the statement end.
module _ {S : Type 0} (x : Extern S) where
  check_context-Ends : (ctx : Context) → Ends (check_context x ctx)
  unfolding check_context lift
  check_context-Ends no_context = record { at = λ s h. cc }
  check_context-Ends background = search ends_rules
  check_context-Ends (cancellable c) = search ends_rules

  pub prepare_as-ends :
      (b : Bool) (ctx : Context) (q : Text) (e : Env S) → (prepare_as x b ctx q e).0 ≢ diverges
  unfolding prepare_as check_context call_prepare ◌>>=◌
  prepare_as-ends b no_context q e h = ground arith
  prepare_as-ends b background q e h = ground arith
  prepare_as-ends b (cancellable c) q e h = ground arith

  run_stmt-Ends :
      {A : Type 0} (m : Exec (StmtEnv S) A) (st : Stmt)
      → Ends m
      → Ends (run_stmt st (deferred m (close_stmt x)))
  unfolding run_stmt deferred
  run_stmt-Ends m st k = record { at = λ e h. ground (arith, k.at (record { env = e; stmt = st })) }

  pub exec_transient_ends :
      {most : ℕ} (y : YieldsFinitely x most) (fuel : ℕ) (ctx : Context) (q : Text)
      (args : List NamedValue) (e : Env S)
      → most < fuel
      → (exec_transient x fuel ctx q args e).0 ≢ diverges
  unfolding exec_transient ◌>>=◌
  exec_transient_ends y fuel ctx q args e h =
      Ends-continue (prepare_as x true ctx q e).0 _ (prepare_as x true ctx q e).1
        (prepare_as-ends true ctx q e)
        λ st _.
          run_stmt-Ends _ st
            (Ends-bind _ _ (bind_named_values-Ends x args) (λ _. exec_bound-Ends y fuel ctx h))

-- execTransient returns, given more fuel than a statement has rows, and the statement that it prepares
-- does not outlive it: whether it fails to prepare, to bind or to run, or succeeds, the prepared
-- statements are those from before.
pub exec_transient_leaves_none :
    {S : Type 0} {x : Extern S} {live : S → List ℕ} {most : ℕ} (law : KeepsStmts x live)
    (y : YieldsFinitely x most) (fuel : ℕ) (ctx : Context) (q : Text) (args : List NamedValue)
    (e : Env S)
    → most < fuel
    → ((exec_transient x fuel ctx q args e).0 ≢ diverges)
      × (live (exec_transient x fuel ctx q args e).1.lib ≡ live e.lib)
exec_transient_leaves_none {x = x} law y fuel ctx q args e h =
    let ends = exec_transient_ends x y fuel ctx q args e h in
    (ends, exec_transient_live law fuel ctx q args e ends)
