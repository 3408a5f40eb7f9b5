-- ===== src/Duckdb/State.antt =====
-- duckdb.go: the structs of the driver. A method acts on the objects that its receiver points to: on a
-- connection and what lies outside the program (`Env`), on a statement of that connection too
-- (`StmtEnv`), or on rows of that statement (`RowsEnv`).
use purego_gen.Prelude.{ℕ, Bool, List}
use purego_gen.Prelude.Int.{ℤ}
use purego_gen.Prelude.Text.{Text}
use purego_gen.Go.{Context}
use purego_gen.Go.Exec.{Exec, Outcome}
use purego_gen.Sqlite3.Extern.{Handle}

-- DuckDBConn
pub record Conn : Type 0 where
  pub db : Handle
  pub handle : Handle
  pub closed : Bool

-- DuckDBStmt
pub record Stmt : Type 0 where
  pub prepared : Handle
  pub ephemeral : Bool
  pub stmt_closed : Bool

-- DuckDBRows; `once` is closeOnce.
pub record Rows : Type 0 where
  pub result : ℕ
  pub ctx : Context
  pub once : Bool
  pub rows_closed : Bool
  pub names : List Text
  pub types : List ℕ
  pub chunk : Handle
  pub chunk_size : ℕ
  pub chunk_row : ℕ
  pub column_count : ℕ

-- duckdbResult
pub record DuckdbResult : Type 0 where
  pub rows_affected : ℤ

pub record Env (S : Type 0) : Type 0 where
  pub conn : Conn
  pub lib : S

pub record StmtEnv (S : Type 0) : Type 0 where
  pub env : Env S
  pub open env use *
  pub stmt : Stmt

pub record RowsEnv (S : Type 0) : Type 0 where
  pub stmt_env : StmtEnv S
  pub open stmt_env use *
  pub rows : Rows

module _ {S A : Type 0} where
  unfoldable pub in_env : Exec (Env S) A → Exec (StmtEnv S) A
  in_env m e = ((m e.env).0, record e { env = (m e.env).1 })

  unfoldable pub in_stmt : Exec (StmtEnv S) A → Exec (RowsEnv S) A
  in_stmt m e = ((m e.stmt_env).0, record e { stmt_env = (m e.stmt_env).1 })

  -- A method is called on a statement object that nothing else will use,
  unfoldable pub run_stmt : Stmt → Exec (StmtEnv S) A → Exec (Env S) A
  run_stmt st m e = let r = m (record { env = e; stmt = st }) in (r.0, r.1.env)

  -- or on one that is used on.
  abbrev pub with_object : Outcome A → StmtEnv S → Outcome (A × Stmt) × Env S
  with_object (Outcome.ok a) v = (Outcome.ok (a, v.stmt), v.env)
  with_object (Outcome.err e) v = (Outcome.err e, v.env)
  with_object Outcome.panics v = (Outcome.panics, v.env)
  with_object Outcome.diverges v = (Outcome.diverges, v.env)

  unfoldable pub start_stmt : Stmt → Exec (StmtEnv S) A → Exec (Env S) (A × Stmt)
  start_stmt st m e = let r = m (record { env = e; stmt = st }) in with_object r.0 r.1
