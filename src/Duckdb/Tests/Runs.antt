-- ===== src/Duckdb/Tests/Runs.antt =====
-- Concrete runs of DuckDB connections and rows.
use purego_gen.Prelude.{◌≡◌, refl, ◌≢◌, inl, true, false, none, some, List, [], ◌∷◌, arith}
use purego_gen.Prelude.Int.{pos}
use purego_gen.Duckdb.Vectors.{is_null}
use purego_gen.Prelude.Text.{codes}
use purego_gen.Go.{NamedValue, Value, bad_conn, background}
use purego_gen.Go.Exec.{ok, err, diverges}
use purego_gen.Duckdb.State.{RowsEnv}
use purego_gen.Duckdb.Conn.{exec_conn}
use purego_gen.Duckdb.Conn.Leaks.{exec_conn_leaves_none}
use purego_gen.Duckdb.Rows.{next}
use purego_gen.Duckdb.Rows.Ends.{next_ends}
use purego_gen.Duckdb.Rows.Lifecycle.{IsClosed, drain, drain-IsClosed}
use purego_gen.Duckdb.Tests.World.{World, world, world_env, world_objects, world_chunks}
use purego_gen.Duckdb.Rows.{read_row, read_value, read_typed}
use purego_gen.Duckdb.Types.{column_type}
use purego_gen.Duckdb.Rows.Order.{returned, rows_from, returned-rows_from}
use purego_gen.Sqlite3.Conn.{TxOptions}
use purego_gen.Duckdb.Conn.{close_conn, prepare_as, query_conn, begin_tx, ping}
use purego_gen.Duckdb.Conn.Closed.{duckdb_closed_is_final}

abbrev one_arg : List NamedValue
one_arg = record { name = codes "a"; ordinal = pos 1; value = Value.uint8 4 } ∷ []

exec_conn_leaves_none_example :
    ((exec_conn world background (codes "DELETE") one_arg world_env).0 ≢ diverges)
    × ((exec_conn world background (codes "DELETE") one_arg world_env).1.lib.stmts ≡ 3 ∷ [])
    × ((exec_conn world background (codes "DELETE") one_arg world_env).1.lib.results ≡ 4 ∷ [])
exec_conn_leaves_none_example =
    exec_conn_leaves_none world_objects background (codes "DELETE") one_arg world_env

abbrev open_rows : RowsEnv World
open_rows = record {
  stmt_env = record {
    env = world_env;
    stmt = record { prepared = some 3; ephemeral = true; stmt_closed = false };
  };
  rows = record {
    result = 4;
    ctx = background;
    once = false;
    rows_closed = false;
    names = codes "a" ∷ [];
    types = 5 ∷ [];
    chunk = none;
    chunk_size = 0;
    chunk_row = 0;
    column_count = 1;
  };
}

next_ends_example : (next world open_rows).0 ≢ diverges
next_ends_example = next_ends world open_rows

drain-IsClosed_example :
    IsClosed (λ w. w.chunks) (λ w. w.results) (λ w. w.stmts) [] [] [] (drain world 5 open_rows)
drain-IsClosed_example = drain-IsClosed world_chunks [] [] [] 5 open_rows (
    inl (record {
      not_once = refl;
      not_closed = refl;
      open_stmt = refl;
      owned = refl;
      held_chunk = refl;
      held_result = refl;
      held_stmt = refl;
    }))

abbrev second_row : RowsEnv World
second_row = record open_rows {
  rows = record open_rows.rows { chunk = some 6; chunk_size = 3; chunk_row = 1 };
}

returned-rows_from_example :
    returned world 2 second_row ≡ rows_from world (5 ∷ []) 1 6 world_env.lib 1 2
returned-rows_from_example =
    returned-rows_from world 6 1 3 (5 ∷ []) 1 world_env.lib second_row 2 (omega arith)
      (λ j h. unfold read_row read_value read_typed column_type is_null in tt)
      (record {
        open_rows = refl;
        at_chunk = refl;
        at_row = refl;
        of_size = refl;
        of_types = refl;
        of_columns = refl;
        of_memory = refl;
      })

abbrev some_arg : NamedValue
some_arg = record { name = []; ordinal = pos 1; value = Value.nil }

abbrev default_tx : TxOptions
default_tx = record { read_only = false; isolation = pos 0 }

duckdb_closed_is_final_example :
    let e' = (close_conn world world_env).1 in
    (close_conn world e' ≡ (ok tt, e'))
    × (prepare_as world true background (codes "SELECT") e' ≡ (err bad_conn, e'))
    × (exec_conn world background (codes "SELECT") (some_arg ∷ []) e' ≡ (err bad_conn, e'))
    × (query_conn world background (codes "SELECT") [] e' ≡ (err bad_conn, e'))
    × (begin_tx world background default_tx e' ≡ (err bad_conn, e'))
    × (ping world background e' ≡ (err bad_conn, e'))
duckdb_closed_is_final_example =
    duckdb_closed_is_final world background (codes "SELECT") some_arg [] default_tx true world_env
