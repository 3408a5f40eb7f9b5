-- ===== src/Sqlite3/Stmt.antt =====
-- sqlite3.go: the methods of SQLiteStmt, with what they use of their connection.
pub mod Keeps
pub mod Ends
pub mod Runs
pub mod Closed
use purego_gen.Prelude.{
  ℕ, zero, suc, ◌+◌, Bool, true, false, ◌&&◌, ◌||◌, List, [], ◌∷◌, Option, none, some, ◌==◌,
  if◌then◌else◌,
}
use purego_gen.Prelude.Int.{ℤ, pos, negsuc, to_int32, ◌==ℤ◌}
use purego_gen.Prelude.Text.{Text, is_empty, text_eq}
use purego_gen.Go.{
  Value, nil, int64, float64, bool, string, bytes, time, int, int8, int16, int32, uint, uint8,
  uint16, uint32, uint64, float32, valuer_ok, valuer_err, other, NamedValue, GoError, bad_conn,
  errorf, str, type_id, Context,
}
use purego_gen.Go.Exec.{
  Exec, Outcome, ok, err, panics, diverges, pure, fail, lift, gets, state, modify, ◌>>=◌, ◌>>◌,
  check,
}
use purego_gen.Sqlite3.Codes.{sqlite_ok, sqlite_row, sqlite_done, sqlite_interrupt}
use purego_gen.Sqlite3.Extern.{
  Extern, Handle, Binding, bind_null, bind_int64, bind_double, bind_text, bind_blob,
}
use purego_gen.Sqlite3.Errors.{error_from_result, context_err}
use purego_gen.Sqlite3.State.{
  ConnectionConfig, Conn, Stmt, Rows, SqliteResult, Env, StmtEnv, on_lib, in_env,
}
use purego_gen.Sqlite3.Bind.{
  is_nil, on_handle, check_usable, result_error, bind_result, bind_named_values,
}
use purego_gen.Sqlite3.Values.{normalize_value, values_to_named_values}
use purego_gen.Sqlite3.TimeText.{format_sqlite_time}

-- The watcher of a context: the context that a goroutine waits for, if there is one.
unfoldable pub interrupt_watcher : Context → Handle → Option ℕ
interrupt_watcher (Context.cancellable c) (some db) = some c
interrupt_watcher ctx db = none

-- `return nil, err`: with a nil error the result is nil too.
unfoldable pub fail_with : {S A : Type 0} → Option GoError → Exec (StmtEnv S) (Option A)
fail_with none e = (ok none, e)
fail_with (some f) e = (err f, e)

module _ {S : Type 0} (x : Extern S) where
  -- Whether the goroutine interrupted the database before it was told to stop.
  unfoldable pub stop_watcher : Option ℕ → S → Bool
  stop_watcher none s = false
  stop_watcher (some c) s = x.fired c s

  unfoldable pub close_stmt : Exec (StmtEnv S) (Unit {0})
  close_stmt = do
    e ← state
    if e.stmt.stmt_closed then pure tt else do
      modify (λ v. record v { stmt = record v.stmt { stmt_closed = true } })
      rc ← on_handle x.finalize
      modify (λ v. record v { stmt = record v.stmt { handle = none } })
      bind_result x rc

  unfoldable pub num_input : Exec (StmtEnv S) ℤ
  num_input = gets λ e. x.bind_parameter_count e.stmt.handle e.lib

  -- How the loop of execBound ends; the connection's counters are read after SQLITE_DONE.
  abbrev pub done_result : StmtEnv S → Option SqliteResult
  done_result e = some (record {
    last_insert_id = x.last_insert_rowid e.conn.db e.lib;
    rows_affected = x.changes64 e.conn.db e.lib;
  })

  abbrev pub interrupted_error : Context → Option ℕ → ℤ → StmtEnv S → Option GoError
  interrupted_error ctx watched rc e =
      if stop_watcher watched e.lib
      then or_else (context_err x ctx e.lib) (result_error x rc e.env)
      else result_error x rc e.env
    where
      or_else : Option GoError → Option GoError → Option GoError
      or_else none d = d
      or_else (some c) d = some c

  unfoldable pub step_loop : ℕ → Context → Option ℕ → Exec (StmtEnv S) (Option SqliteResult)
  step_loop zero ctx watched = lift diverges
  step_loop (suc fuel) ctx watched = do
    rc ← on_handle x.step
    let rest = step_loop fuel ctx watched
    if rc ==ℤ sqlite_row
        then rest
        else if rc ==ℤ sqlite_done
        then gets done_result
        else if rc ==ℤ sqlite_interrupt
        then (do e ← state; fail_with (interrupted_error ctx watched rc e))
        else do e ← state; fail_with (result_error x rc e.env)

  unfoldable pub exec_bound : ℕ → Context → Exec (StmtEnv S) (Option SqliteResult)
  exec_bound fuel ctx = do e ← state; step_loop fuel ctx (interrupt_watcher ctx e.conn.db)

  unfoldable pub reset_for_reuse : Exec (StmtEnv S) (Unit {0})
  reset_for_reuse = do
    e ← state
    if e.stmt.stmt_closed || is_nil e.stmt.handle then pure tt else do
      rc ← on_handle x.reset
      bind_result x rc
      rc ← on_handle x.clear_bindings
      bind_result x rc
      if e.stmt.ephemeral then close_stmt else pure tt

  -- The statement is reset after an error too, and that error is the one returned.
  abbrev then_reset : {A : Type 0} → Outcome A → Exec (StmtEnv S) A
  then_reset (ok a) e = (do reset_for_reuse; pure a) e
  then_reset (err f) e = (err f, (reset_for_reuse e).1)
  then_reset panics e = (panics, e)
  then_reset diverges e = (diverges, e)

  unfoldable pub followed_by_reset : {A : Type 0} → Exec (StmtEnv S) A → Exec (StmtEnv S) A
  followed_by_reset m e = then_reset (m e).0 (m e).1

  unfoldable pub exec_context :
      ℕ → Context → List NamedValue → Exec (StmtEnv S) (Option SqliteResult)
  exec_context fuel ctx args = do bind_named_values x args; followed_by_reset (exec_bound fuel ctx)

  unfoldable pub exec : ℕ → List Value → Exec (StmtEnv S) (Option SqliteResult)
  exec fuel args = exec_context fuel Context.background (values_to_named_values args)

  -- The columns from `index` on.
  abbrev pub columns : (Handle → ℤ → S → Text) → Handle → S → ℕ → ℕ → List Text
  columns f h s index zero = []
  columns f h s index (suc n) = f h (to_int32 (pos index)) s ∷ columns f h s (index + 1) n

  -- make([]string, count) panics on a negative count.
  abbrev pub rows_of : Context → ℤ → Exec (StmtEnv S) Rows
  rows_of ctx (negsuc n) = lift panics
  rows_of ctx (pos count) = gets λ e. record {
    ctx = ctx;
    once = false;
    rows_closed = false;
    names = columns x.column_name e.stmt.handle e.lib 0 count;
    decl_types = columns x.column_decltype e.stmt.handle e.lib 0 count;
  }

  unfoldable pub new_rows : Context → Exec (StmtEnv S) Rows
  new_rows ctx = do e ← state; rows_of ctx (x.column_count e.stmt.handle e.lib)

  unfoldable pub query_context : Context → List NamedValue → Exec (StmtEnv S) Rows
  query_context ctx args = do bind_named_values x args; new_rows ctx

  unfoldable pub query : List Value → Exec (StmtEnv S) Rows
  query args = query_context Context.background (values_to_named_values args)
