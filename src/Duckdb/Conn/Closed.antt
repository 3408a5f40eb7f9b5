-- ===== src/Duckdb/Conn/Closed.antt =====
-- duckdb.go: a connection after Close, and a connection that Connect could not make.
use purego_gen.Prelude.{◌≡◌, refl, Bool, true, List, [], ◌∷◌, arith}
use purego_gen.Prelude.Text.{Text}
use purego_gen.Go.{NamedValue, bad_conn, Context}
use purego_gen.Go.Exec.{ok, err, ◌>>=◌}
use purego_gen.Sqlite3.Conn.{TxOptions}
use purego_gen.Duckdb.Extern.{Extern}
use purego_gen.Duckdb.State.{Env}
use purego_gen.Duckdb.Conn.{
  prepare_as, close_conn, exec_transient, exec_conn, query_conn, begin_tx, ping,
}

module _ {S : Type 0} (x : Extern S) where
  closed_after : (e : Env S) → (close_conn x e).1.conn.closed ≡ true
  unfolding close_conn
  closed_after e = ground arith

  prepare_closed :
      (b : Bool) (ctx : Context) (q : Text) (e : Env S)
      → e.conn.closed ≡ true
      → prepare_as x b ctx q e ≡ (err bad_conn, e)
  unfolding prepare_as ◌>>=◌
  prepare_closed b ctx q e h = simp h

  exec_closed :
      (ctx : Context) (q : Text) (args : List NamedValue) (e : Env S)
      → e.conn.closed ≡ true
      → exec_transient x ctx q args e ≡ (err bad_conn, e)
  unfolding exec_transient ◌>>=◌
  exec_closed ctx q args e h = rw (prepare_closed true ctx q e h) refl

  -- After Close, a second Close returns nil, and PrepareContext, ExecContext with arguments, QueryContext,
  -- BeginTx and Ping return driver.ErrBadConn; none of them calls the library or changes anything. (This
  -- is not so of ExecContext without arguments, Commit and Rollback.)
  pub duckdb_closed_is_final :
      (ctx : Context) (q : Text) (arg : NamedValue) (args : List NamedValue) (opts : TxOptions)
      (b : Bool) (e : Env S)
      → let e' = (close_conn x e).1 in
        (close_conn x e' ≡ (ok tt, e'))
        × (prepare_as x b ctx q e' ≡ (err bad_conn, e'))
        × (exec_conn x ctx q (arg ∷ args) e' ≡ (err bad_conn, e'))
        × (query_conn x ctx q args e' ≡ (err bad_conn, e'))
        × (begin_tx x ctx opts e' ≡ (err bad_conn, e'))
        × (ping x ctx e' ≡ (err bad_conn, e'))
  duckdb_closed_is_final ctx q arg args opts b e =
      let e' = (close_conn x e).1 in
      let h = closed_after e in
      (
        unfold close_conn in simp h,
        prepare_closed b ctx q e' h,
        unfold exec_conn in exec_closed ctx q (arg ∷ args) e' h,
        unfold query_conn ◌>>=◌ in simp h,
        unfold begin_tx ◌>>=◌ in simp h,
        unfold ping ◌>>=◌ in rw (exec_closed ctx _ [] e' h) refl,
      )
