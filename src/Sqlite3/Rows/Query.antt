-- ===== src/Sqlite3/Rows/Query.antt =====
-- sqlite3.go: what QueryContext returns, and a whole query from it to Close.
use purego_gen.Prelude.{
  ℕ, ◌≡◌, refl, ◌≢◌, ◌∙◌, inl, inr, ap, true, List, arith, Option-cases, subst,
}
use purego_gen.Prelude.Int.{ℤ, pos, negsuc}
use purego_gen.Prelude.Text.{Text}
use purego_gen.Go.{NamedValue, Context}
use purego_gen.Go.Exec.{
  Outcome, ok, err, panics, diverges, lift, gets, ◌>>=◌, continue, on_error, cleanup_then,
}
use purego_gen.Sqlite3.Extern.{Extern, KeepsStmts, dropped}
use purego_gen.Sqlite3.State.{Stmt, Rows, Env, StmtEnv, start_stmt, with_object}
use purego_gen.Sqlite3.Bind.{bind_named_values, check_usable}
use purego_gen.Sqlite3.Stmt.{close_stmt, new_rows, rows_of}
use purego_gen.Sqlite3.Bind.Total.{bind_named_values-Ends}
use purego_gen.Sqlite3.Stmt.Keeps.{bind_named_values-Keeps}
use purego_gen.Sqlite3.Conn.{prepare_as, query_conn}
use purego_gen.Sqlite3.Conn.Leaks.{
  Prepares, prepare_as-Prepares, prepare_as-ends, close_stmt-live, dropped-added,
}
use purego_gen.Sqlite3.Rows.Lifecycle.{drain, drain-IsClosed, rows_env, Opens, IsFresh, OpensStmt}

module _ {S : Type 0} {x : Extern S} {live : S → List ℕ} (law : KeepsStmts x live) where
  rows_of-OpensStmt :
      (l : List ℕ) (ctx : Context) (count : ℤ) (v : StmtEnv S)
      → IsFresh live l v
      → let r = on_error (rows_of x ctx count) (close_stmt x) v in OpensStmt live l r.0 r.1
  unfolding on_error lift gets
  rows_of-OpensStmt l ctx (pos n) v h = record {
    not_once = refl;
    not_closed = refl;
    open_stmt = h.fresh_open;
    owned = h.fresh_owned;
    held = h.fresh_held;
  }
  rows_of-OpensStmt l ctx (negsuc n) v h = tt

  new_rows-OpensStmt :
      (l : List ℕ) (ctx : Context) (v : StmtEnv S)
      → IsFresh live l v
      → let r = on_error (new_rows x ctx) (close_stmt x) v in OpensStmt live l r.0 r.1
  unfolding new_rows on_error ◌>>=◌
  new_rows-OpensStmt l ctx v h = rows_of-OpensStmt l ctx (x.column_count v.stmt.handle v.lib) v h

  bind-OpensStmt :
      (l : List ℕ) (ctx : Context) (r : Outcome (Unit {0})) (v : StmtEnv S)
      → r ≢ diverges
      → IsFresh live l v
      → let c = cleanup_then r (close_stmt x) v in
        let b = continue c.0 (λ _. on_error (new_rows x ctx) (close_stmt x)) c.1 in
        OpensStmt live l b.0 b.1
  bind-OpensStmt l ctx (ok a) v n h = new_rows-OpensStmt l ctx v h
  bind-OpensStmt l ctx (err f) v n h =
      close_stmt-live law v h.fresh_open
      ∙ ap (dropped v.stmt.handle) h.fresh_held
      ∙ dropped-added v.stmt.handle l
  bind-OpensStmt l ctx panics v n h = tt
  bind-OpensStmt l ctx diverges v n h = n refl

  with_object-Opens :
      (l : List ℕ) (r : Outcome Rows) (v : StmtEnv S)
      → OpensStmt live l r v
      → Opens live l (with_object r v).0 (with_object r v).1
  with_object-Opens l (ok r) v h = record {
    not_once = h.not_once;
    not_closed = h.not_closed;
    open_stmt = h.open_stmt;
    owned = h.owned;
    held = h.held;
  }
  with_object-Opens l (err f) v h = h
  with_object-Opens l panics v h = tt
  with_object-Opens l diverges v h = h

  bound-IsFresh :
      (l : List ℕ) (args : List NamedValue) (v : StmtEnv S)
      → IsFresh live l v
      → IsFresh live l (bind_named_values x args v).1
  bound-IsFresh l args v h =
      let k = (bind_named_values-Keeps law.silent args).at v in
      ground (arith, k.same_view, k.same_stmt, h.fresh_held)

  start_stmt-Opens :
      (l : List ℕ) (ctx : Context) (args : List NamedValue) (r : Outcome Stmt) (e : Env S)
      → r ≢ diverges
      → Prepares law true l r e.lib
      → let b =
          continue r
            (λ st. start_stmt st (
              on_error (bind_named_values x args) (close_stmt x) >>= λ _.
              on_error (new_rows x ctx) (close_stmt x)))
            e in
        Opens live l b.0 b.1
  unfolding start_stmt ◌>>=◌ on_error
  start_stmt-Opens l ctx args (ok st) e n h = with_object-Opens l _ _ (
      bind-OpensStmt l ctx (bind_named_values x args v).0 (bind_named_values x args v).1
        ((bind_named_values-Ends x args).at v) (bound-IsFresh l args v fresh))
    where
      v : StmtEnv S
      v = record { env = e; stmt = st }

      fresh : IsFresh live l v
      fresh = record { fresh_open = h.1; fresh_owned = h.2; fresh_held = h.0 }
  start_stmt-Opens l ctx args (err f) e n h = h
  start_stmt-Opens l ctx args panics e n h = tt
  start_stmt-Opens l ctx args diverges e n h = n refl

  -- What QueryContext returns: open rows whose statement only they use, or an error and the prepared
  -- statements of before. It ends.
  pub query_conn-Opens :
      (ctx : Context) (q : Text) (args : List NamedValue) (e : Env S)
      → Opens live (live e.lib) (query_conn x ctx q args e).0 (query_conn x ctx q args e).1
  unfolding query_conn ◌>>=◌
  query_conn-Opens ctx q args e = elim (Option-cases (check_usable e.conn)) [
    | inl usable ↦ simp usable (
        start_stmt-Opens (live e.lib) ctx args (prepare_as x true ctx q e).0
          (prepare_as x true ctx q e).1 (prepare_as-ends x true ctx q e)
          (prepare_as-Prepares law true ctx q e))
    | inr (f, unusable) ↦ simp unusable refl
  ]

-- From QueryContext to Close: whatever calls of Next come between, on whatever number of columns, the
-- prepared statements are in the end those from before the query.
pub query_session_releases :
    {S : Type 0} {x : Extern S} {live : S → List ℕ} (law : KeepsStmts x live) (ctx : Context)
    (q : Text) (args : List NamedValue) (e : Env S) (rows : Rows) (st : Stmt) (ns : List ℕ)
    → (query_conn x ctx q args e).0 ≡ ok (rows, st)
    → live (drain x ns (rows_env (query_conn x ctx q args e).1 (rows, st))).lib ≡ live e.lib
query_session_releases {x = x} {live = live} law ctx q args e rows st ns h =
    let opens =
      subst (λ r. Opens live (live e.lib) r (query_conn x ctx q args e).1) h
        (query_conn-Opens law ctx q args e) in
    (drain-IsClosed law (live e.lib) ns _ (inl opens)).released
