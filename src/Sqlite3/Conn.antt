-- ===== src/Sqlite3/Conn.antt =====
-- sqlite3.go: opening a connection, and the methods of SQLiteConn and SQLiteTx.
pub mod Leaks
pub mod Closed
pub mod Keeps
pub mod Connect
pub mod Begin
pub mod Opened
use purego_gen.Prelude.{
  ℕ, Bool, true, false, not, ◌&&◌, ◌||◌, List, [], ◌∷◌, ◌++◌, Option, none, some, if◌then◌else◌,
  ltb,
}
use purego_gen.Prelude.Int.{ℤ, pos, ltb_ℤ, ◌==ℤ◌}
use purego_gen.Prelude.Text.{Text, codes, is_empty, text_eq}
use purego_gen.Go.{
  NamedValue, GoError, bad_conn, errorf, num, str, Context, no_context, background, cancellable,
}
use purego_gen.Go.Exec.{
  Exec, Outcome, ok, err, panics, diverges, pure, fail, lift, gets, state, modify, ◌>>=◌, ◌>>◌,
  check, deferred, on_error,
}
use purego_gen.Sqlite3.Codes.{sqlite_ok}
use purego_gen.Sqlite3.Extern.{Extern, Handle}
use purego_gen.Sqlite3.Errors.{error_from_result, error_from_context, context_err}
use purego_gen.Sqlite3.State.{
  ConnectionConfig, Conn, Stmt, Rows, SqliteResult, Env, StmtEnv, on_lib, run_stmt, start_stmt,
}
use purego_gen.Sqlite3.Bind.{is_nil, check_usable, result_error, bind_named_values}
use purego_gen.Sqlite3.Stmt.{close_stmt, exec_bound, new_rows}

-- driver.TxOptions; database/sql numbers LevelDefault 0 and LevelSerializable 6.
pub record TxOptions : Type 0 where
  pub read_only : Bool
  pub isolation : ℤ

-- SQLiteTx is its connection.
abbrev pub Tx : Type 0
Tx = Unit {0}

-- The switch on c.config.txLock.
unfoldable pub begin_sql : Text → Option Text
begin_sql tx_lock =
    if is_empty tx_lock || text_eq tx_lock (codes "deferred")
    then some (codes "BEGIN")
    else if text_eq tx_lock (codes "immediate")
    then some (codes "BEGIN IMMEDIATE")
    else if text_eq tx_lock (codes "exclusive")
    then some (codes "BEGIN EXCLUSIVE")
    else none

abbrev pub supported_isolation : ℤ → Bool
supported_isolation level = level ==ℤ pos 0 || level ==ℤ pos 6

unfoldable pub reset_session : Conn → Option GoError
reset_session c = if c.closed then some bad_conn else none

unfoldable pub is_valid : Conn → Bool
is_valid c = not c.closed && not (is_nil c.db)

abbrev pub fresh_conn : ConnectionConfig → Conn
fresh_conn config = record { db = none; config = config; closed = false }

module _ {S : Type 0} (x : Extern S) where
  abbrev set_db : Handle → Exec (Env S) (Unit {0})
  set_db h = modify λ e. record e { conn = record e.conn { db = h } }

  abbrev set_closed : Exec (Env S) (Unit {0})
  set_closed = modify λ e. record e { conn = record e.conn { closed = true } }

  -- `if result != SQLITE_OK { return c.errorFromResult(result) }`.
  unfoldable pub check_result : ℤ → Exec (Env S) (Unit {0})
  check_result rc = do e ← state; check (result_error x rc e)

  -- ctx.Err() of a nil context is a nil dereference.
  unfoldable pub check_context : Context → Exec (Env S) (Unit {0})
  check_context no_context = lift panics
  check_context background = pure tt
  check_context (cancellable c) = do e ← state; check (context_err x (cancellable c) e.lib)

  -- sqlite3sys.PrepareV2: the code, and the statement written to the pointer.
  unfoldable pub call_prepare : Text → Exec (Env S) (ℤ × Handle)
  call_prepare query e = (
    ok ((x.prepare_v2 e.conn.db query e.lib).0, (x.prepare_v2 e.conn.db query e.lib).1),
    record e { lib = (x.prepare_v2 e.conn.db query e.lib).2 },
  )

  abbrev prepared : Bool → Context → ℤ × Handle → Exec (Env S) Stmt
  prepared ephemeral ctx (rc, h) = do
    e ← state
    if rc ==ℤ sqlite_ok
        then pure (record { handle = h; ephemeral = ephemeral; stmt_closed = false })
        else do check (error_from_context x e.conn.db rc ctx e.lib); lift panics

  -- PrepareContext, and prepareEphemeral, which marks the statement.
  unfoldable pub prepare_as : Bool → Context → Text → Exec (Env S) Stmt
  prepare_as ephemeral ctx query = do
    e ← state
    check (check_usable e.conn)
    check_context ctx
    result ← call_prepare query
    prepared ephemeral ctx result

  abbrev pub prepare_context : Context → Text → Exec (Env S) Stmt
  prepare_context = prepare_as false

  abbrev pub prepare_ephemeral : Context → Text → Exec (Env S) Stmt
  prepare_ephemeral = prepare_as true

  unfoldable pub close_conn : Exec (Env S) (Unit {0})
  close_conn = do
    e ← state
    if e.conn.closed
        then pure tt
        else do set_closed; rc ← on_lib (x.close_v2 e.conn.db); set_db none; check_result rc

  unfoldable pub force_close : Exec (Env S) (Unit {0})
  force_close = do
    e ← state
    if is_nil e.conn.db
        then pure tt
        else do rc ← on_lib (x.close_v2 e.conn.db); set_db none; set_closed

  unfoldable pub exec_transient :
      ℕ → Context → Text → List NamedValue → Exec (Env S) (Option SqliteResult)
  exec_transient fuel ctx query args = do
    stmt ← prepare_ephemeral ctx query
    run_stmt stmt (deferred (do bind_named_values x args; exec_bound x fuel ctx) (close_stmt x))

  -- ExecContext
  abbrev exec_conn : ℕ → Context → Text → List NamedValue → Exec (Env S) (Option SqliteResult)
  exec_conn = exec_transient

  unfoldable pub query_conn : Context → Text → List NamedValue → Exec (Env S) (Rows × Stmt)
  query_conn ctx query args = do
    e ← state
    check (check_usable e.conn)
    stmt ← prepare_ephemeral ctx query
    start_stmt stmt (do
      on_error (bind_named_values x args) (close_stmt x)
      on_error (new_rows x ctx) (close_stmt x))

  unfoldable pub begin_tx : ℕ → Context → TxOptions → Exec (Env S) Tx
  begin_tx fuel ctx opts = do
    e ← state
    check (check_usable e.conn)
    if opts.read_only
        then fail (errorf "sqlite3: read-only transactions are not supported" [])
        else if not (supported_isolation opts.isolation)
        then fail (errorf "sqlite3: unsupported isolation level %d" (num opts.isolation ∷ []))
        else elim (begin_sql e.conn.config.tx_lock) [
          | none ↦
              fail (errorf "sqlite3: unsupported _txlock value %q" (str e.conn.config.tx_lock ∷ []))
          | some sql ↦ do exec_transient fuel ctx sql []; pure tt
        ]

  unfoldable pub ping : ℕ → Context → Exec (Env S) (Unit {0})
  ping fuel ctx = do exec_transient fuel ctx (codes "SELECT 1") []; pure tt

  unfoldable pub commit : ℕ → Tx → Exec (Env S) (Unit {0})
  commit fuel tx = do exec_transient fuel background (codes "COMMIT") []; pure tt

  unfoldable pub rollback : ℕ → Tx → Exec (Env S) (Unit {0})
  rollback fuel tx = do exec_transient fuel background (codes "ROLLBACK") []; pure tt

  abbrev pub pragma : ℕ → Text → Exec (Env S) (Unit {0})
  pragma fuel sql = do exec_transient fuel background sql []; pure tt

  unfoldable pub foreign_keys_pragma : ℕ → Option Bool → Exec (Env S) (Unit {0})
  foreign_keys_pragma fuel none = pure tt
  foreign_keys_pragma fuel (some true) = pragma fuel (codes "PRAGMA foreign_keys = ON")
  foreign_keys_pragma fuel (some false) = pragma fuel (codes "PRAGMA foreign_keys = OFF")

  unfoldable pub text_pragma : ℕ → Text → Text → Exec (Env S) (Unit {0})
  text_pragma fuel name value = if is_empty value then pure tt else pragma fuel (name ++ value)

  unfoldable pub apply_pragmas : ℕ → Exec (Env S) (Unit {0})
  apply_pragmas fuel = do
    e ← state
    foreign_keys_pragma fuel e.conn.config.foreign_keys
    text_pragma fuel (codes "PRAGMA journal_mode = ") e.conn.config.journal_mode
    text_pragma fuel (codes "PRAGMA synchronous = ") e.conn.config.synchronous

  unfoldable pub call_open : Exec (Env S) ℤ
  call_open e =
      let r = x.open_v2 e.conn.config.filename (pos e.conn.config.flags) e.lib in
      (ok r.0, record { conn = record e.conn { db = r.1 }; lib = r.2 })

  unfoldable pub set_busy_timeout : Exec (Env S) (Unit {0})
  set_busy_timeout = do
    e ← state
    if ltb_ℤ (pos 0) e.conn.config.busy_timeout
        then (do rc ← on_lib (x.busy_timeout e.conn.db e.conn.config.busy_timeout); check_result rc)
        else pure tt

  abbrev pub run_hook : Option (Exec (Env S) (Unit {0})) → Exec (Env S) (Unit {0})
  run_hook none = pure tt
  run_hook (some hook) = hook

  -- What follows the call of OpenV2: a failure closes the database again.
  unfoldable pub after_open : ℕ → Option (Exec (Env S) (Unit {0})) → ℤ → Exec (Env S) (Unit {0})
  after_open fuel hook rc = do
    on_error (check_result rc) force_close
    on_error set_busy_timeout force_close
    on_error (apply_pragmas fuel) force_close
    on_error (run_hook hook) force_close

  -- `Connect` on the connection that it makes.
  unfoldable pub connect_with : ℕ → Option (Exec (Env S) (Unit {0})) → Exec (Env S) (Unit {0})
  connect_with fuel hook = do
    loaded ← on_lib x.load
    check loaded
    rc ← call_open
    after_open fuel hook rc

  unfoldable pub connect :
      ℕ → Option (Exec (Env S) (Unit {0})) → ConnectionConfig → S → Outcome (Unit {0}) × Env S
  connect fuel hook config s = connect_with fuel hook (record { conn = fresh_conn config; lib = s })
