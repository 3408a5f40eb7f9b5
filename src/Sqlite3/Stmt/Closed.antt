-- ===== src/Sqlite3/Stmt/Closed.antt =====
-- sqlite3.go: a statement after Close, and rows after Close.
use purego_gen.Prelude.{ℕ, ◌≡◌, true, arith}
use purego_gen.Go.Exec.{ok, err, ◌>>=◌}
use purego_gen.Sqlite3.Extern.{Extern}
use purego_gen.Sqlite3.State.{StmtEnv, RowsEnv, in_stmt}
use purego_gen.Sqlite3.Bind.{on_handle, bind_result}
use purego_gen.Go.{eof}
use purego_gen.Sqlite3.Rows.{close_rows, next}
use purego_gen.Sqlite3.Stmt.{close_stmt, reset_for_reuse}

module _ {S : Type 0} (x : Extern S) where
  stmt_closed_after : (e : StmtEnv S) → (close_stmt x e).1.stmt.stmt_closed ≡ true
  unfolding close_stmt on_handle bind_result ◌>>=◌
  stmt_closed_after e = ground arith

  -- Close of a statement marks it as closed whatever SQLite answers, so that it is finalized once: a
  -- second Close and the reset of a statement for reuse return nil and change nothing.
  pub closed_stmt_is_final :
      (e : StmtEnv S)
      → let e' = (close_stmt x e).1 in
        (close_stmt x e' ≡ (ok tt, e')) × (reset_for_reuse x e' ≡ (ok tt, e'))
  closed_stmt_is_final e =
      let e' = (close_stmt x e).1 in
      let h = stmt_closed_after e in
      (unfold close_stmt ◌>>=◌ in simp h, unfold reset_for_reuse ◌>>=◌ in simp h)

  rows_closed_after :
      (v : RowsEnv S)
      → v.rows.rows_closed ≡ v.rows.once
      → let v' = (close_rows x v).1 in (v'.rows.rows_closed ≡ true) × (v'.rows.once ≡ true)
  unfolding close_rows in_stmt ◌>>=◌
  rows_closed_after v h = ground arith

  -- Rows that Close has closed, or found closed, are at their end: Next returns io.EOF, a second Close
  -- returns nil, and neither does anything. (The flag of the rows is set with that of closeOnce only.)
  closed_rows_are_final :
      (count : ℕ) (v : RowsEnv S)
      → v.rows.rows_closed ≡ v.rows.once
      → let v' = (close_rows x v).1 in
        (next x count v' ≡ (err eof, v')) × (close_rows x v' ≡ (ok tt, v'))
  closed_rows_are_final count v h =
      let c = rows_closed_after v h in
      (unfold next ◌>>=◌ in simp c.0, unfold close_rows ◌>>=◌ in simp c.1)
