-- ===== src/Duckdb/Conn.antt =====
-- duckdb.go: opening a connection, and the methods of DuckDBConn and DuckDBTx.
pub mod Leaks
pub mod Closed
use purego_gen.Prelude.{ℕ, Bool, true, false, not, List, [], ◌∷◌, Option, none, some, if◌then◌else◌}
use purego_gen.Prelude.Int.{ℤ}
use purego_gen.Prelude.Text.{Text, codes, is_empty}
use purego_gen.Go.{NamedValue, GoError, errorf, str, num, Context, background}
use purego_gen.Go.Exec.{
  Exec, Outcome, ok, err, pure, fail, state, ◌>>=◌, ◌>>◌, check, deferred, on_error,
}
use purego_gen.Sqlite3.Extern.{Handle}
use purego_gen.Sqlite3.Conn.{TxOptions, supported_isolation}
use purego_gen.Duckdb.Extern.{Extern}
use purego_gen.Duckdb.State.{Conn, Stmt, Rows, DuckdbResult, Env, StmtEnv, run_stmt, start_stmt}
use purego_gen.Duckdb.Stmt.{
  check_usable, call, on_lib, check_context, close_stmt, bind_named_values, take_result, exec_bound,
  query_bound,
}

-- DuckDBTx is its connection.
abbrev pub Tx : Type 0
Tx = Unit {0}

module _ {S : Type 0} (x : Extern S) where
  unfoldable pub call_prepare : Text → Exec (Env S) (Bool × Handle)
  call_prepare query e =
      let r = x.prepare e.conn.handle query e.lib in (ok (r.0, r.1), record e { lib = r.2 })

  -- What follows Prepare; a statement that failed to prepare is destroyed.
  unfoldable pub prepared : Bool → Bool × Handle → Exec (Env S) Stmt
  prepared ephemeral (true, h) =
      pure (record { prepared = h; ephemeral = ephemeral; stmt_closed = false })
  prepared ephemeral (false, h) = do
    e ← state
    call (x.destroy_prepare h)
    fail (errorf "duckdb: prepare: %s" (str (x.prepare_error h e.lib) ∷ []))

  -- PrepareContext, and prepareEphemeral, which marks the statement.
  unfoldable pub prepare_as : Bool → Context → Text → Exec (Env S) Stmt
  prepare_as ephemeral ctx query = do
    e ← state
    check (check_usable e.conn)
    check_context x ctx
    r ← call_prepare query
    prepared ephemeral r

  abbrev pub prepare_context : Context → Text → Exec (Env S) Stmt
  prepare_context = prepare_as false

  abbrev pub prepare_ephemeral : Context → Text → Exec (Env S) Stmt
  prepare_ephemeral = prepare_as true

  unfoldable pub close_conn : Exec (Env S) (Unit {0})
  close_conn e = if e.conn.closed then (ok tt, e) else (
    ok tt,
    record {
      conn = record { db = none; handle = none; closed = true };
      lib = x.close e.conn.db (x.disconnect e.conn.handle e.lib);
    },
  )

  unfoldable pub exec_transient : Context → Text → List NamedValue → Exec (Env S) DuckdbResult
  exec_transient ctx query args = do
    stmt ← prepare_ephemeral ctx query
    run_stmt stmt (deferred (bind_named_values x args >> exec_bound x ctx) (close_stmt x))

  unfoldable pub call_query : Text → Exec (Env S) (Bool × ℕ)
  call_query query e =
      let r = x.query e.conn.handle query e.lib in (ok (r.0, r.1), record e { lib = r.2 })

  -- The connection is not checked.
  unfoldable pub exec_direct : Context → Text → Exec (Env S) DuckdbResult
  exec_direct ctx query = call_query query >>= take_result x ctx

  unfoldable pub exec_conn : Context → Text → List NamedValue → Exec (Env S) DuckdbResult
  exec_conn ctx query [] = exec_direct ctx query
  exec_conn ctx query (arg ∷ args) = exec_transient ctx query (arg ∷ args)

  unfoldable pub query_conn : Context → Text → List NamedValue → Exec (Env S) (Rows × Stmt)
  query_conn ctx query args = do
    e ← state
    check (check_usable e.conn)
    stmt ← prepare_ephemeral ctx query
    start_stmt stmt (do
      on_error (bind_named_values x args) (close_stmt x)
      on_error (query_bound x ctx) (close_stmt x))

  unfoldable pub begin_tx : Context → TxOptions → Exec (Env S) Tx
  begin_tx ctx opts = do
    e ← state
    check (check_usable e.conn)
    if opts.read_only
        then fail (errorf "duckdb: read-only transactions are not supported" [])
        else if not (supported_isolation opts.isolation)
        then fail (errorf "duckdb: unsupported isolation level %d" (num opts.isolation ∷ []))
        else do exec_transient ctx (codes "BEGIN TRANSACTION") []; pure tt

  unfoldable pub ping : Context → Exec (Env S) (Unit {0})
  ping ctx = do exec_transient ctx (codes "SELECT 1") []; pure tt

  unfoldable pub commit : Tx → Exec (Env S) (Unit {0})
  commit tx = do exec_direct background (codes "COMMIT"); pure tt

  unfoldable pub rollback : Tx → Exec (Env S) (Unit {0})
  rollback tx = do exec_direct background (codes "ROLLBACK"); pure tt

  abbrev dsn_of : Text → Text
  dsn_of dsn = if is_empty dsn then codes ":memory:" else dsn

  -- What follows the call of Connect; if it fails, the database is closed.
  abbrev connected : Handle → Bool × Handle × S → Outcome Conn × S
  connected db (true, h, s) = (ok (record { db = db; handle = h; closed = false }), s)
  connected db (false, h, s) =
      (err (errorf "duckdb: failed to connect to database" []), x.close db s)

  abbrev opened : Text → Bool × Handle × S → Outcome Conn × S
  opened dsn (true, db, s) = connected db (x.connect db s)
  opened dsn (false, db, s) = (err (errorf "duckdb: failed to open database %q" (str dsn ∷ [])), s)

  abbrev loaded : Text → Option GoError × S → Outcome Conn × S
  loaded dsn (none, s) = opened (dsn_of dsn) (x.open_db (dsn_of dsn) s)
  loaded dsn (some e, s) = (err e, s)

  unfoldable pub connect : Text → S → Outcome Conn × S
  connect dsn s = loaded dsn (x.load s)
