-- ===== src/Sqlite3/Conn/Closed.antt =====
-- sqlite3.go: a connection after Close.
use purego_gen.Prelude.{ℕ, ◌≡◌, refl, Bool, true, false, List, [], some, arith}
use purego_gen.Prelude.Text.{Text}
use purego_gen.Go.{NamedValue, bad_conn, Context}
use purego_gen.Go.Exec.{ok, err, ◌>>=◌}
use purego_gen.Sqlite3.Extern.{Extern}
use purego_gen.Sqlite3.State.{Env, on_lib}
use purego_gen.Sqlite3.Conn.{
  TxOptions, Tx, prepare_as, close_conn, exec_transient, query_conn, begin_tx, ping, check_result,
  reset_session, is_valid, commit, rollback,
}

module _ {S : Type 0} (x : Extern S) where
  closed_after : (e : Env S) → (close_conn x e).1.conn.closed ≡ true
  unfolding close_conn on_lib check_result ◌>>=◌
  closed_after e = ground arith

  prepare_closed :
      (b : Bool) (ctx : Context) (q : Text) (e : Env S)
      → e.conn.closed ≡ true
      → prepare_as x b ctx q e ≡ (err bad_conn, e)
  unfolding prepare_as ◌>>=◌
  prepare_closed b ctx q e h = simp h

  exec_closed :
      (fuel : ℕ) (ctx : Context) (q : Text) (args : List NamedValue) (e : Env S)
      → e.conn.closed ≡ true
      → exec_transient x fuel ctx q args e ≡ (err bad_conn, e)
  unfolding exec_transient ◌>>=◌
  exec_closed fuel ctx q args e h = rw (prepare_closed true ctx q e h) refl

  query_closed :
      (ctx : Context) (q : Text) (args : List NamedValue) (e : Env S)
      → e.conn.closed ≡ true
      → query_conn x ctx q args e ≡ (err bad_conn, e)
  unfolding query_conn ◌>>=◌
  query_closed ctx q args e h = simp h

  begin_closed :
      (fuel : ℕ) (ctx : Context) (opts : TxOptions) (e : Env S)
      → e.conn.closed ≡ true
      → begin_tx x fuel ctx opts e ≡ (err bad_conn, e)
  unfolding begin_tx ◌>>=◌
  begin_closed fuel ctx opts e h = simp h

  close_again : (e : Env S) → e.conn.closed ≡ true → close_conn x e ≡ (ok tt, e)
  unfolding close_conn ◌>>=◌
  close_again e h = simp h

  ping_closed :
      (fuel : ℕ) (ctx : Context) (e : Env S)
      → e.conn.closed ≡ true
      → ping x fuel ctx e ≡ (err bad_conn, e)
  unfolding ping ◌>>=◌
  ping_closed fuel ctx e h = rw (exec_closed fuel ctx _ [] e h) refl

  commit_closed :
      (fuel : ℕ) (tx : Tx) (e : Env S)
      → e.conn.closed ≡ true
      → (commit x fuel tx e ≡ (err bad_conn, e)) × (rollback x fuel tx e ≡ (err bad_conn, e))
  unfolding commit rollback ◌>>=◌
  commit_closed fuel tx e h = (
    rw (exec_closed fuel Context.background _ [] e h) refl,
    rw (exec_closed fuel Context.background _ [] e h) refl,
  )

  -- After Close, whatever it returned, a second Close returns nil, and Prepare, PrepareContext, ExecContext,
  -- QueryContext, Begin, BeginTx, Ping, Commit, Rollback and ResetSession return driver.ErrBadConn; none of them
  -- calls the library or changes anything, and IsValid is false. (RegisterFunc, RegisterCollation and the
  -- methods that set hooks do not look at the flag, and are not among these.)
  pub closed_is_final :
      (fuel : ℕ) (ctx : Context) (q : Text) (args : List NamedValue) (opts : TxOptions) (tx : Tx)
      (b : Bool) (e : Env S)
      → let e' = (close_conn x e).1 in
        (close_conn x e' ≡ (ok tt, e'))
        × (prepare_as x b ctx q e' ≡ (err bad_conn, e'))
        × (exec_transient x fuel ctx q args e' ≡ (err bad_conn, e'))
        × (query_conn x ctx q args e' ≡ (err bad_conn, e'))
        × (begin_tx x fuel ctx opts e' ≡ (err bad_conn, e'))
        × (ping x fuel ctx e' ≡ (err bad_conn, e'))
        × (commit x fuel tx e' ≡ (err bad_conn, e'))
        × (rollback x fuel tx e' ≡ (err bad_conn, e'))
        × (reset_session e'.conn ≡ some bad_conn)
        × (is_valid e'.conn ≡ false)
  unfolding reset_session is_valid
  closed_is_final fuel ctx q args opts tx b e =
      let e' = (close_conn x e).1 in
      let h = closed_after e in
      (
        close_again e' h,
        prepare_closed b ctx q e' h,
        exec_closed fuel ctx q args e' h,
        query_closed ctx q args e' h,
        begin_closed fuel ctx opts e' h,
        ping_closed fuel ctx e' h,
        (commit_closed fuel tx e' h).0,
        (commit_closed fuel tx e' h).1,
        ground arith,
        ground arith,
      )
