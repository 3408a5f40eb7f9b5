-- ===== src/Sqlite3/Tests/Runs.antt =====
-- Concrete runs of connections, statements and rows.
use purego_gen.Prelude.{
  ℕ, ◌+◌, ◌≡◌, refl, ◌≢◌, inl, subst, Bool, true, false, List, [], ◌∷◌, Option, none, some, arith,
}
use purego_gen.Prelude.Int.{ℤ, pos}
use purego_gen.Prelude.Text.{codes}
use purego_gen.Go.{NamedValue, Value, bad_conn, eof, background}
use purego_gen.Go.Exec.{Exec, ok, err, diverges, pure, on_error, ◌>>=◌}
use purego_gen.Sqlite3.Errors.{error_from_result}
use purego_gen.Sqlite3.State.{Env, Stmt, StmtEnv, Rows, RowsEnv, start_stmt}
use purego_gen.Sqlite3.Stmt.{new_rows, exec_bound}
use purego_gen.Sqlite3.Stmt.Runs.{RunsTo, Answers, exec_bound-RunsTo}
use purego_gen.Sqlite3.Bind.{bind_named_values, bind_args, bind_result, on_handle}
use purego_gen.Sqlite3.Values.Valuers.{Dynamic, settled, valuer, settles, calls, AreNormalized}
use purego_gen.Sqlite3.Bind.Total.{Ends, Ends-pure, bind_named_values_ends}
use purego_gen.Sqlite3.Conn.{
  check_context, call_prepare, TxOptions, exec_transient, query_conn, begin_tx, ping, commit,
  rollback, prepare_as, close_conn, reset_session, is_valid, connect,
}
use purego_gen.Sqlite3.Conn.Keeps.{KeepsConn, KeepsConn-pure}
use purego_gen.Sqlite3.Conn.Leaks.{exec_transient_leaves_none}
use purego_gen.Sqlite3.Conn.Connect.{Connects}
use purego_gen.Sqlite3.Conn.Opened.{connect_opens_one}
use purego_gen.Sqlite3.Conn.Closed.{closed_is_final}
use purego_gen.Sqlite3.Conn.Begin.{Refused, begin_tx_refuses}
use purego_gen.Sqlite3.Rows.Lifecycle.{drain, rows_env, Opens}
use purego_gen.Sqlite3.Rows.Fetched.{fetched, fetched-Yields}
use purego_gen.Sqlite3.Rows.Query.{query_conn-Opens, query_session_releases}
use purego_gen.Sqlite3.Tests.World.{
  World, world, live_stmts, open_dbs, world_stmts, world_dbs, world_rows, world_config, empty_world,
  world_env,
}

abbrev one_arg : List NamedValue
one_arg = record { name = codes "a"; ordinal = pos 1; value = Value.uint8 4 } ∷ []

abbrev read_only_tx : TxOptions
read_only_tx = record { read_only = true; isolation = pos 0 }

exec_transient_leaves_none_example :
    ((exec_transient world 3 background (codes "DELETE") one_arg world_env).0 ≢ diverges)
    × (live_stmts (exec_transient world 3 background (codes "DELETE") one_arg world_env).1.lib
        ≡ 8 ∷ [])
exec_transient_leaves_none_example =
    exec_transient_leaves_none world_stmts world_rows 3 background (codes "DELETE") one_arg
      world_env (omega arith)

abbrev KeepsHook : Option (Exec (Env World) (Unit {0})) → Type 0
KeepsHook none = Unit {0}
KeepsHook (some m) = KeepsConn open_dbs m

abbrev EndsHook : Option (Exec (Env World) (Unit {0})) → Type 0
EndsHook none = Unit {0}
EndsHook (some m) = Ends m

connect_opens_one_example :
    ((connect world 3 (some (pure tt)) (world_config (codes "a.db")) empty_world).0 ≢ diverges)
    × Connects world_dbs []
        (connect world 3 (some (pure tt)) (world_config (codes "a.db")) empty_world).0
        (connect world 3 (some (pure tt)) (world_config (codes "a.db")) empty_world).1
connect_opens_one_example =
    connect_opens_one world_dbs world_rows 3 (some (pure tt)) (world_config (codes "a.db"))
      empty_world (omega arith) (λ m e. subst KeepsHook e (KeepsConn-pure tt))
      (λ m e. subst EndsHook e (Ends-pure tt))

closed_is_final_example :
    let e' = (close_conn world world_env).1 in
    (close_conn world e' ≡ (ok tt, e'))
    × (prepare_as world false background (codes "SELECT") e' ≡ (err bad_conn, e'))
    × (exec_transient world 3 background (codes "SELECT") one_arg e' ≡ (err bad_conn, e'))
    × (query_conn world background (codes "SELECT") one_arg e' ≡ (err bad_conn, e'))
    × (begin_tx world 3 background read_only_tx e' ≡ (err bad_conn, e'))
    × (ping world 3 background e' ≡ (err bad_conn, e'))
    × (commit world 3 tt e' ≡ (err bad_conn, e'))
    × (rollback world 3 tt e' ≡ (err bad_conn, e'))
    × (reset_session e'.conn ≡ some bad_conn)
    × (is_valid e'.conn ≡ false)
closed_is_final_example =
    closed_is_final world 3 background (codes "SELECT") one_arg read_only_tx tt false world_env

begin_tx_refuses_example : Refused (begin_tx world 3 background read_only_tx world_env) world_env
begin_tx_refuses_example = begin_tx_refuses world 3 background read_only_tx world_env (inl refl)

query_conn-Opens_example :
    Opens live_stmts
      (8 ∷ [])
      (query_conn world background (codes "SELECT") one_arg world_env).0
      (query_conn world background (codes "SELECT") one_arg world_env).1
query_conn-Opens_example =
    query_conn-Opens world_stmts background (codes "SELECT") one_arg world_env

abbrev test_rows : Rows
test_rows = record {
  ctx = background;
  once = false;
  rows_closed = false;
  names = codes "a" ∷ [];
  decl_types = codes "INTEGER" ∷ [];
}

abbrev test_stmt : Stmt
test_stmt = record { handle = some 10; ephemeral = true; stmt_closed = false }

query_session_releases_example :
    live_stmts
      (drain world (1 ∷ 1 ∷ []) (
        rows_env
          (query_conn world background (codes "SELECT") [] world_env).1
          (test_rows, test_stmt))).lib
    ≡ 8 ∷ []
unfolding query_conn prepare_as ◌>>=◌ check_context call_prepare start_stmt on_error
    bind_named_values on_handle bind_result error_from_result bind_args new_rows
query_session_releases_example =
    query_session_releases world_stmts background (codes "SELECT") [] world_env test_rows test_stmt
      (1 ∷ 1 ∷ []) refl

abbrev test_stmt_env : StmtEnv World
test_stmt_env = record { env = world_env; stmt = test_stmt }

-- A chain of two Valuers, which are named by Booleans.
abbrev two_valuers : Bool → Dynamic Bool
two_valuers true = valuer false
two_valuers false = settled (Value.uint8 4)

abbrev chain : Value
chain = Value.valuer_ok (Value.valuer_ok (Value.uint8 4))

abbrev chain_arg : List NamedValue
chain_arg = record { name = codes "a"; ordinal = pos 1; value = chain } ∷ []

bind_named_values_ends_example :
    AreNormalized two_valuers (valuer true ∷ []) chain_arg
    × ((bind_named_values world chain_arg test_stmt_env).0 ≢ diverges)
bind_named_values_ends_example =
    bind_named_values_ends world two_valuers (valuer true ∷ []) chain_arg test_stmt_env (
      calls true (Value.valuer_ok (Value.uint8 4))
          (calls false (Value.uint8 4) (settles (Value.uint8 4))),
      tt,
    )

abbrev at_row : RowsEnv World
at_row =
    rows_env
      (record world_env { lib = record { stmts = 10 ∷ []; dbs = 9 ∷ []; row = true; fresh = 11 } })
      (test_rows, test_stmt)

fetched-Yields_example :
    fetched world 1 (1 + 2) at_row ≡ ok (Value.int64 (pos 7) ∷ []) ∷ err eof ∷ err eof ∷ []
fetched-Yields_example =
    fetched-Yields world 1 ((Value.int64 (pos 7) ∷ []) ∷ []) 1 at_row (omega arith) refl refl
      (refl, refl, ((refl, refl), tt), refl)

exec_bound-RunsTo_example :
    (rows : ℕ) × (rc : ℤ) × (s' : World) × RunsTo world (some 10) at_row.lib rows rc s'
    × Answers world background (some 9) s' rc (exec_bound world 2 background at_row.stmt_env).0
    × ((exec_bound world 2 background at_row.stmt_env).1
        ≡ record at_row.stmt_env { env = record world_env { lib = s' } })
exec_bound-RunsTo_example = exec_bound-RunsTo world_rows 2 background at_row.stmt_env (omega arith)
