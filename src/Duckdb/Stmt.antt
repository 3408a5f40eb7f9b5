-- ===== src/Duckdb/Stmt.antt =====
-- duckdb.go: the methods of DuckDBStmt, with what they use of their connection.
pub mod Keeps
pub mod Ends
use purego_gen.Prelude.{
  ℕ, zero, suc, ◌+◌, ◌≡◌, Bool, true, false, ◌||◌, List, [], ◌∷◌, Option, none, some, if◌then◌else◌,
}
use purego_gen.Prelude.Int.{ℤ, pos, bits, to_int64}
use purego_gen.Prelude.Text.{Text, is_empty}
use purego_gen.Go.{
  Value, nil, int64, float64, bool, string, bytes, time, NamedValue, GoError, bad_conn,
  context_error, errorf, str, num, type_id, Context, no_context, background, cancellable, Time,
}
use purego_gen.Go.Exec.{
  Exec, Outcome, ok, err, panics, diverges, pure, fail, lift, gets, state, modify, ◌>>=◌, ◌>>◌,
  check,
}
use purego_gen.Sqlite3.Extern.{Handle}
use purego_gen.Sqlite3.Bind.{is_nil, same_dynamic, type_of}
use purego_gen.Duckdb.Extern.{
  Extern, Binding, bind_null, bind_boolean, bind_int64, bind_double, bind_varchar, bind_blob,
  bind_timestamp,
}
use purego_gen.Duckdb.Numbers.{timestamp_from}
use purego_gen.Duckdb.Values.{normalize_value, values_to_named_values}
use purego_gen.Duckdb.State.{Conn, Stmt, Rows, DuckdbResult, Env, StmtEnv, in_env}

abbrev pub check_usable : Conn → Option GoError
check_usable c = if c.closed || is_nil c.handle then some bad_conn else none

module _ {S : Type 0} where
  -- A function of the library that returns nothing.
  unfoldable pub call : (S → S) → Exec (Env S) (Unit {0})
  call f e = (ok tt, record e { lib = f e.lib })

  -- One that fills or answers something.
  unfoldable pub on_lib : {A : Type 0} → (S → A × S) → Exec (Env S) A
  on_lib f e = (ok (f e.lib).0, record e { lib = (f e.lib).1 })

  -- Of the statement.
  unfoldable pub on_prepared : {A : Type 0} → (Handle → S → A × S) → Exec (StmtEnv S) A
  unfolding on_lib in_env
  on_prepared f e = in_env (on_lib (f e.stmt.prepared)) e

module _ {S : Type 0} (x : Extern S) where
  -- ctx.Err() of a context, from the reason why it is done.
  abbrev pub done_error : Option Text → Option GoError
  done_error none = none
  done_error (some why) = some (context_error why)

  -- `if ctx.Err() != nil { return nil, ctx.Err() }`; the method of a nil context panics.
  unfoldable pub check_context : Context → Exec (Env S) (Unit {0})
  check_context no_context e = (panics, e)
  check_context background e = (ok tt, e)
  check_context (cancellable c) e = check (done_error (x.cancelled c e.lib)) e

  unfoldable pub close_stmt : Exec (StmtEnv S) (Unit {0})
  close_stmt e = if e.stmt.stmt_closed then (ok tt, e) else (
    ok tt,
    record {
      env = record e.env { lib = x.destroy_prepare e.stmt.prepared e.lib };
      stmt = record e.stmt { stmt_closed = true; prepared = none };
    },
  )

  unfoldable pub num_input : Exec (StmtEnv S) ℤ
  num_input = gets λ e. pos (x.nparams e.stmt.prepared e.lib)

  abbrev or_else : Option ℕ → Option ℕ → Option ℕ
  or_else none d = d
  or_else (some i) d = some i

  -- By the name, and then by the name after a dollar sign.
  unfoldable pub resolve_index : NamedValue → StmtEnv S → Outcome ℕ
  unfolding bits
  resolve_index arg e =
      if is_empty arg.name
      then ok (bits 64 arg.ordinal)
      else elim (or_else (x.bind_parameter_index e.stmt.prepared arg.name e.lib)
          (x.bind_parameter_index e.stmt.prepared (b'$' ∷ arg.name) e.lib)) [
            | none ↦ err (errorf "duckdb: unknown named parameter %q" (str arg.name ∷ []))
            | some index ↦ ok index
          ]

  unfoldable pub bind_state : ℕ → Bool → Exec (StmtEnv S) (Unit {0})
  bind_state index success =
      if success
      then pure tt
      else fail (errorf "duckdb: bind parameter %d failed" (num (pos index) ∷ []))

  abbrev bind_with : ℕ → Binding → Exec (StmtEnv S) (Unit {0})
  bind_with index b = on_prepared (λ h. x.bind_value h index b) >>= bind_state index

  -- The default case of bindValue, over its recursive call.
  abbrev bind_other : Value → (Value → Exec (StmtEnv S) (Unit {0})) → Exec (StmtEnv S) (Unit {0})
  bind_other value again = do
    normalized ← lift (normalize_value value)
    if same_dynamic normalized value
        then fail
            (errorf "duckdb: unsupported bind parameter type %T" (type_id (type_of value) ∷ []))
        else again normalized

  -- The argument bounds the depth of the calls.
  unfoldable pub bind_value : ℕ → ℕ → Value → Exec (StmtEnv S) (Unit {0})
  unfolding timestamp_from
  bind_value zero index value = lift diverges
  bind_value (suc depth) index nil = bind_with index bind_null
  bind_value (suc depth) index (bool v) = bind_with index (bind_boolean v)
  bind_value (suc depth) index (int64 v) = bind_with index (bind_int64 v)
  bind_value (suc depth) index (float64 v) = bind_with index (bind_double v)
  bind_value (suc depth) index (string v) = bind_with index (bind_varchar v)
  bind_value (suc depth) index (bytes v) = bind_with index (bind_blob v)
  bind_value (suc depth) index (time v) =
      bind_with index (bind_timestamp (timestamp_from (x.unix_of v) v.nanosecond))
  bind_value (suc depth) index v = bind_other v (λ n. bind_value depth index n)

  unfoldable pub bind_arg : NamedValue → Exec (StmtEnv S) (Unit {0})
  bind_arg arg = do e ← state; index ← lift (resolve_index arg e); bind_value 2 index arg.value

  unfoldable pub bind_args : List NamedValue → Exec (StmtEnv S) (Unit {0})
  bind_args [] = pure tt
  bind_args (arg ∷ args) = bind_arg arg >> bind_args args

  abbrev clear_state : Bool → Exec (StmtEnv S) (Unit {0})
  clear_state success =
      if success then pure tt else fail (errorf "duckdb: clear bindings failed" [])

  unfoldable pub bind_named_values : List NamedValue → Exec (StmtEnv S) (Unit {0})
  bind_named_values args = do
    e ← state
    check (check_usable e.conn)
    success ← on_prepared x.clear_bindings
    clear_state success
    bind_args args

  -- What follows ExecutePrepared or Query: the result that it filled is read and destroyed.
  unfoldable pub take_result : Context → Bool × ℕ → Exec (Env S) DuckdbResult
  take_result ctx (true, result) = do
    e ← state
    call (x.destroy_result result)
    pure (record { rows_affected = to_int64 (pos (x.rows_changed result e.lib)) })
  take_result ctx (false, result) = do
    e ← state
    call (x.destroy_result result)
    check_context ctx
    fail (errorf "duckdb: exec: %s" (str (x.result_error result e.lib) ∷ []))

  -- The state that ExecutePrepared returns, and the result that it fills.
  unfoldable pub execute : Exec (StmtEnv S) (Bool × ℕ)
  execute =
      on_prepared λ h s.
        (((x.execute_prepared h s).0, (x.execute_prepared h s).1), (x.execute_prepared h s).2)

  unfoldable pub exec_bound : Context → Exec (StmtEnv S) DuckdbResult
  exec_bound ctx = execute >>= λ r. in_env (take_result ctx r)

  unfoldable pub exec_context : Context → List NamedValue → Exec (StmtEnv S) DuckdbResult
  exec_context ctx args = bind_named_values args >> exec_bound ctx

  unfoldable pub exec : List Value → Exec (StmtEnv S) DuckdbResult
  exec args = exec_context background (values_to_named_values args)

  -- `count` columns from `index` on.
  abbrev columns : {A : Type 0} → (ℕ → ℕ → S → A) → ℕ → S → ℕ → ℕ → List A
  columns f result s index zero = []
  columns f result s index (suc count) = f result index s ∷ columns f result s (index + 1) count

  abbrev rows_of : Context → ℕ → S → Rows
  rows_of ctx result s = record {
    result = result;
    ctx = ctx;
    once = false;
    rows_closed = false;
    names = columns x.column_name result s 0 (x.column_count result s);
    types = columns x.column_type result s 0 (x.column_count result s);
    chunk = none;
    chunk_size = 0;
    chunk_row = 0;
    column_count = x.column_count result s;
  }

  unfoldable pub take_rows : Context → Bool × ℕ → Exec (Env S) Rows
  take_rows ctx (true, result) = gets λ e. rows_of ctx result e.lib
  take_rows ctx (false, result) = do
    e ← state
    call (x.destroy_result result)
    check_context ctx
    fail (errorf "duckdb: query: %s" (str (x.result_error result e.lib) ∷ []))

  unfoldable pub query_bound : Context → Exec (StmtEnv S) Rows
  query_bound ctx = execute >>= λ r. in_env (take_rows ctx r)

  unfoldable pub query_context : Context → List NamedValue → Exec (StmtEnv S) Rows
  query_context ctx args = bind_named_values args >> query_bound ctx

  unfoldable pub query : List Value → Exec (StmtEnv S) Rows
  query args = query_context background (values_to_named_values args)
