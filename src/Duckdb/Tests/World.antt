-- ===== src/Duckdb/Tests/World.antt =====
-- A small DuckDB for the tests: it keeps the statements, results and chunks that it has made, and every
-- result has one chunk of two rows.
use purego_gen.Prelude.{
  ℕ, suc, ◌/◌, ◌%◌, ◌≡◌, refl, Bool, true, false, none, some, List, [], ◌∷◌, ◌==◌, if◌then◌else◌,
}
use purego_gen.Prelude.Int.{pos}
use purego_gen.Prelude.Text.{Text, codes}
use purego_gen.Go.{Time}
use purego_gen.Sqlite3.Extern.{Handle, added, dropped, erase}
use purego_gen.Duckdb.Extern.{Extern, KeepsObjects, KeepsChunks}
use purego_gen.Duckdb.State.{Env}

pub record World : Type 0 where
  pub stmts : List ℕ
  pub results : List ℕ
  pub chunks : List ℕ
  pub more : Bool
  pub fresh : ℕ

abbrev pub midnight : Time
midnight = record {
  year = 1970;
  month = 1;
  day = 1;
  hour = 0;
  minute = 0;
  second = 0;
  nanosecond = 0;
  offset = pos 0;
}

abbrev world_prepare : Text → World → Bool × Handle × World
world_prepare [] w = (false, none, w)
world_prepare (c ∷ cs) w =
    (true, some w.fresh, record w { stmts = w.fresh ∷ w.stmts; fresh = suc w.fresh })

abbrev world_run : Bool → World → Bool × ℕ × World
world_run success w =
    (success, w.fresh, record w { results = w.fresh ∷ w.results; fresh = suc w.fresh; more = true })

abbrev world_fetch : Bool → World → Handle × World
world_fetch true w =
    (some w.fresh, record w { chunks = w.fresh ∷ w.chunks; fresh = suc w.fresh; more = false })
world_fetch false w = (none, w)

abbrev pub world : Extern World
world = record {
  load = λ w. (none, w);
  open_db = λ name w. (true, some 1, w);
  connect = λ db w. (true, some 2, w);
  close = λ h w. w;
  disconnect = λ h w. w;
  prepare = λ c q w. world_prepare q w;
  prepare_error = λ h w. codes "syntax error";
  destroy_prepare = λ h w. record w { stmts = dropped h w.stmts };
  nparams = λ h w. 1;
  clear_bindings = λ h w. (true, w);
  bind_parameter_index = λ h name w. some 1;
  bind_value = λ h i b w. (true, w);
  execute_prepared = λ h w. world_run true w;
  query = λ c q w. world_run true w;
  result_error = λ r w. codes "out of memory";
  rows_changed = λ r w. 3;
  destroy_result = λ r w. record w { results = erase r w.results };
  column_count = λ r w. 1;
  column_name = λ r i w. codes "a";
  column_type = λ r i w. 5;
  fetch_chunk = λ r w. world_fetch w.more w;
  chunk_size = λ c w. 2;
  destroy_chunk = λ c w. record w { chunks = erase c w.chunks };
  memory = λ w a. if a % 8 == 0 then a / 8 else 0;
  vector_data = λ c col w. 0;
  vector_validity = λ c col w. none;
  row_is_valid = λ v row w. true;
  logical_type = λ c col w. 5;
  decimal_scale = λ c col w. 2;
  date_of = λ n. midnight;
  time_of = λ n. midnight;
  time_unix = λ s n. midnight;
  unix_of = λ t. pos 0;
  widen = λ n. n;
  cancelled = λ c w. none;
}

prepare_adds :
    (q : Text) (w : World) → (world_prepare q w).2.stmts ≡ added (world_prepare q w).1 w.stmts
prepare_adds [] w = refl
prepare_adds (c ∷ cs) w = refl

prepare_keeps : (q : Text) (w : World) → (world_prepare q w).2.results ≡ w.results
prepare_keeps [] w = refl
prepare_keeps (c ∷ cs) w = refl

pub world_objects : KeepsObjects world (λ w. w.stmts) (λ w. w.results)
world_objects = record {
  prepare_stmts = λ c q w. prepare_adds q w;
  prepare_results = λ c q w. prepare_keeps q w;
  destroy_prepare_stmts = λ h w. refl;
  destroy_prepare_results = λ h w. refl;
  execute_stmts = λ h w. refl;
  execute_results = λ h w. refl;
  query_stmts = λ c q w. refl;
  query_results = λ c q w. refl;
  destroy_result_stmts = λ r w. refl;
  destroy_result_results = λ r w. refl;
  clear_stmts = λ h w. refl;
  clear_results = λ h w. refl;
  bind_stmts = λ h i b w. refl;
  bind_results = λ h i b w. refl;
}

fetch_adds :
    (b : Bool) (w : World) → (world_fetch b w).1.chunks ≡ added (world_fetch b w).0 w.chunks
fetch_adds true w = refl
fetch_adds false w = refl

fetch_keeps :
    (b : Bool) (w : World)
    → ((world_fetch b w).1.results ≡ w.results) × ((world_fetch b w).1.stmts ≡ w.stmts)
fetch_keeps true w = (refl, refl)
fetch_keeps false w = (refl, refl)

pub world_chunks : KeepsChunks world (λ w. w.chunks) (λ w. w.results) (λ w. w.stmts)
world_chunks = record {
  fetch_chunks = λ r w. fetch_adds w.more w;
  fetch_results = λ r w. (fetch_keeps w.more w).0;
  fetch_stmts = λ r w. (fetch_keeps w.more w).1;
  destroy_chunk_chunks = λ c w. refl;
  destroy_chunk_results = λ c w. refl;
  destroy_chunk_stmts = λ c w. refl;
  destroy_result_chunks = λ r w. refl;
  destroy_result_results = λ r w. refl;
  destroy_result_stmts = λ r w. refl;
  destroy_prepare_chunks = λ h w. refl;
  destroy_prepare_results = λ h w. refl;
  destroy_prepare_stmts = λ h w. refl;
}

abbrev pub world_env : Env World
world_env = record {
  conn = record { db = some 1; handle = some 2; closed = false };
  lib = record { stmts = 3 ∷ []; results = 4 ∷ []; chunks = []; more = true; fresh = 5 };
}
