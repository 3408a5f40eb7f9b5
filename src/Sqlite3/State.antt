-- ===== src/Sqlite3/State.antt =====
-- sqlite3.go: the structs of the driver. A method acts on the objects that its receiver points to:
-- on a connection and what lies outside the program (`Env`), on a statement of that connection too
-- (`StmtEnv`), or on rows of that statement (`RowsEnv`). So a statement and its rows share one
-- statement object, as the pointers of the source do.
use purego_gen.Prelude.{ℕ, Bool, Option, List}
use purego_gen.Prelude.Int.{ℤ}
use purego_gen.Prelude.Text.{Text}
use purego_gen.Go.{Context}
use purego_gen.Go.Exec.{Exec, Outcome}
use purego_gen.Sqlite3.Extern.{Handle}

-- A location is given by its name, time.Local being "Local".
pub record ConnectionConfig : Type 0 where
  pub filename : Text
  pub flags : ℕ
  pub busy_timeout : ℤ
  pub foreign_keys : Option Bool
  pub journal_mode : Text
  pub synchronous : Text
  pub tx_lock : Text
  pub location : Option Text

-- SQLiteConn, less its registry of callbacks.
pub record Conn : Type 0 where
  pub db : Handle
  pub config : ConnectionConfig
  pub closed : Bool

pub record Stmt : Type 0 where
  pub handle : Handle
  pub ephemeral : Bool
  pub stmt_closed : Bool

-- `once` is closeOnce.
pub record Rows : Type 0 where
  pub ctx : Context
  pub once : Bool
  pub rows_closed : Bool
  pub names : List Text
  pub decl_types : List Text

pub record SqliteResult : Type 0 where
  pub last_insert_id : ℤ
  pub rows_affected : ℤ

pub record Env (S : Type 0) : Type 0 where
  pub conn : Conn
  pub lib : S

pub record StmtEnv (S : Type 0) : Type 0 where
  pub env : Env S
  pub open env use *
  pub stmt : Stmt

pub record RowsEnv (S : Type 0) : Type 0 where
  pub stmt_env : StmtEnv S
  pub open stmt_env use *
  pub rows : Rows

-- A call of the library, from a method of each of the three receivers.
module _ {S A : Type 0} where
  unfoldable pub on_lib : (S → A × S) → Exec (Env S) A
  on_lib f e = let (a, l) = f e.lib in (Outcome.ok a, record e { lib = l })

  unfoldable pub in_env : Exec (Env S) A → Exec (StmtEnv S) A
  in_env m e = let (r, v) = m e.env in (r, record e { env = v })

  unfoldable pub in_stmt : Exec (StmtEnv S) A → Exec (RowsEnv S) A
  in_stmt m e = let (r, v) = m e.stmt_env in (r, record e { stmt_env = v })

  -- A method is called on a statement object that nothing else will use,
  unfoldable pub run_stmt : Stmt → Exec (StmtEnv S) A → Exec (Env S) A
  run_stmt st m e = let (r, v) = m (record { env = e; stmt = st }) in (r, v.env)

  -- or on one that is used on.
  abbrev pub with_object : Outcome A → StmtEnv S → Outcome (A × Stmt) × Env S
  with_object (Outcome.ok a) v = (Outcome.ok (a, v.stmt), v.env)
  with_object (Outcome.err e) v = (Outcome.err e, v.env)
  with_object Outcome.panics v = (Outcome.panics, v.env)
  with_object Outcome.diverges v = (Outcome.diverges, v.env)

  unfoldable pub start_stmt : Stmt → Exec (StmtEnv S) A → Exec (Env S) (A × Stmt)
  start_stmt st m e = let (r, v) = m (record { env = e; stmt = st }) in with_object r v
