-- ===== src/Sqlite3/Tests/World.antt =====
-- A small SQLite for the tests: it keeps the open databases and the prepared statements, and every
-- statement yields one row at most.
use purego_gen.Prelude.{
  ℕ, suc, ◌≤◌, ◌<◌, ◌≡◌, refl, Bool, true, false, none, some, List, [], ◌∷◌, arith, if◌then◌else◌,
}
use purego_gen.Prelude.Int.{ℤ, pos, ◌==ℤ◌}
use purego_gen.Prelude.Text.{Text, codes, is_empty}
use purego_gen.Sqlite3.State.{ConnectionConfig, Env}
use purego_gen.Sqlite3.Codes.{sqlite_ok, sqlite_row}
use purego_gen.Sqlite3.Extern.{Extern, Handle, KeepsStmts, KeepsDbs, YieldsFinitely, added, dropped}

pub record World : Type 0 where
  pub stmts : List ℕ
  pub dbs : List ℕ
  pub row : Bool
  pub fresh : ℕ

-- A query without text is refused.
abbrev world_prepare : Text → World → ℤ × Handle × World
world_prepare [] w = (pos 1, none, w)
world_prepare (c ∷ cs) w =
    (pos 0, some w.fresh, record w { stmts = w.fresh ∷ w.stmts; fresh = suc w.fresh; row = true })

abbrev world_open : Text → World → ℤ × Handle × World
world_open [] w = (pos 14, none, w)
world_open (c ∷ cs) w =
    (pos 0, some w.fresh, record w { dbs = w.fresh ∷ w.dbs; fresh = suc w.fresh })

abbrev world_step : Bool → World → ℤ × World
world_step true w = (pos 100, record w { row = false })
world_step false w = (pos 101, w)

abbrev pub world : Extern World
world = record {
  load = λ w. (none, w);
  open_v2 = λ name flags w. world_open name w;
  close_v2 = λ h w. (pos 0, record w { dbs = dropped h w.dbs });
  busy_timeout = λ h ms w. (pos 0, w);
  errmsg = λ h w. codes "near: syntax error";
  prepare_v2 = λ db q w. world_prepare q w;
  finalize = λ h w. (pos 0, record w { stmts = dropped h w.stmts });
  reset = λ h w. (pos 0, w);
  clear_bindings = λ h w. (pos 0, w);
  step = λ h w. world_step w.row w;
  bind_value = λ h i b w. (pos 0, w);
  bind_parameter_count = λ h w. pos 1;
  bind_parameter_index = λ h name w. if is_empty name then pos 0 else pos 1;
  column_count = λ h w. pos 1;
  column_name = λ h i w. codes "a";
  column_decltype = λ h i w. codes "INTEGER";
  column_type = λ h i w. pos 1;
  column_int64 = λ h i w. pos 7;
  column_double = λ h i w. 0;
  column_text = λ h i w. codes "7";
  column_blob = λ h i w. none;
  last_insert_rowid = λ h w. pos 3;
  changes64 = λ h w. pos 1;
  cancelled = λ c w. none;
  fired = λ c w. false;
  time_parse = λ layout loc t. none;
}

abbrev pub live_stmts : World → List ℕ
live_stmts w = w.stmts

abbrev pub open_dbs : World → List ℕ
open_dbs w = w.dbs

abbrev pub rows_of_world : Bool → ℕ
rows_of_world true = 1
rows_of_world false = 0

step_keeps : (b : Bool) (w : World) → live_stmts (world_step b w).1 ≡ live_stmts w
step_keeps true w = refl
step_keeps false w = refl

step_keeps_dbs : (b : Bool) (w : World) → open_dbs (world_step b w).1 ≡ open_dbs w
step_keeps_dbs true w = refl
step_keeps_dbs false w = refl

prepare_adds :
    (q : Text) (w : World)
    → live_stmts (world_prepare q w).2 ≡ added (world_prepare q w).1 (live_stmts w)
prepare_adds [] w = refl
prepare_adds (c ∷ cs) w = refl

prepare_null :
    (q : Text) (w : World)
    → (world_prepare q w).0 ==ℤ sqlite_ok ≡ false
    → (world_prepare q w).1 ≡ none
prepare_null [] w h = refl
prepare_null (c ∷ cs) w h = cc

prepare_keeps_dbs : (q : Text) (w : World) → open_dbs (world_prepare q w).2 ≡ open_dbs w
prepare_keeps_dbs [] w = refl
prepare_keeps_dbs (c ∷ cs) w = refl

open_adds :
    (name : Text) (w : World)
    → open_dbs (world_open name w).2 ≡ added (world_open name w).1 (open_dbs w)
open_adds [] w = refl
open_adds (c ∷ cs) w = refl

pub world_stmts : KeepsStmts world live_stmts
world_stmts = record {
  silent = record {
    reset_view = λ h w. refl;
    clear_bindings_view = λ h w. refl;
    step_view = λ h w. step_keeps w.row w;
    bind_value_view = λ h i b w. refl;
  };
  prepare_live = λ db q w. prepare_adds q w;
  prepare_fails = λ db q w. prepare_null q w;
  finalize_live = λ h w. refl;
}

pub world_dbs : KeepsDbs world open_dbs
world_dbs = record {
  silent = record {
    reset_view = λ h w. refl;
    clear_bindings_view = λ h w. refl;
    step_view = λ h w. step_keeps_dbs w.row w;
    bind_value_view = λ h i b w. refl;
  };
  load_opened = λ w. refl;
  open_opened = λ name flags w. open_adds name w;
  close_opened = λ h w. refl;
  busy_timeout_opened = λ h ms w. refl;
  prepare_opened = λ db q w. prepare_keeps_dbs q w;
  finalize_opened = λ h w. refl;
}

step_decreases :
    (b : Bool) (w : World)
    → (world_step b w).0 ==ℤ sqlite_row ≡ true
    → w.row ≡ b
    → rows_of_world (world_step b w).1.row < rows_of_world b
step_decreases true w h e = omega arith
step_decreases false w h e = cc

at_most_one : (b : Bool) → rows_of_world b ≤ 1
at_most_one true = omega arith
at_most_one false = omega arith

pub world_rows : YieldsFinitely world 1
world_rows = record {
  rows_left = λ h w. rows_of_world w.row;
  step_row = λ h w e. step_decreases w.row w e refl;
  bounded = λ h w. at_most_one w.row;
}

abbrev pub world_config : Text → ConnectionConfig
world_config name = record {
  filename = name;
  flags = 6;
  busy_timeout = pos 5;
  foreign_keys = some true;
  journal_mode = codes "WAL";
  synchronous = [];
  tx_lock = codes "immediate";
  location = none;
}

abbrev pub empty_world : World
empty_world = record { stmts = []; dbs = []; row = false; fresh = 1 }

abbrev pub world_env : Env World
world_env = record {
  conn = record { db = some 9; config = world_config (codes "a.db"); closed = false };
  lib = record { stmts = 8 ∷ []; dbs = 9 ∷ []; row = false; fresh = 10 };
}
