-- ===== src/Sqlite3/Tests/Params.antt =====
-- A library that keeps nothing but the bound parameters of one statement, with parameters :a and ?2.
use purego_gen.Prelude.{◌≡◌, refl, ap, false, none, some, List, [], ◌∷◌, if◌then◌else◌}
use purego_gen.Prelude.Int.{pos, bits}
use purego_gen.Prelude.Text.{codes, text_eq}
use purego_gen.Go.{NamedValue, Value}
use purego_gen.Go.Exec.{ok, ◌>>=◌}
use purego_gen.Sqlite3.Errors.{error_from_result}
use purego_gen.Sqlite3.Extern.{Extern, bind_int64, bind_text, passed, c_text}
use purego_gen.Sqlite3.State.{StmtEnv}
use purego_gen.Sqlite3.Values.{normalize_value}
use purego_gen.Sqlite3.Bind.{
  on_handle, bind_result, resolve_index, bind_value, bind_arg, bind_args, bind_named_values,
}
use purego_gen.Sqlite3.Bind.Binds.{stored}
use purego_gen.Sqlite3.Bind.Assigns.{
  Params, unbound, put, Assigns, KeepsParams, bind_named_values-Assigns,
}
use purego_gen.Sqlite3.Tests.World.{world_config}

abbrev table : Extern Params
table = record {
  load = λ s. (none, s);
  open_v2 = λ name flags s. (pos 0, some 9, s);
  close_v2 = λ h s. (pos 0, s);
  busy_timeout = λ h ms s. (pos 0, s);
  errmsg = λ h s. [];
  prepare_v2 = λ db q s. (pos 0, some 10, s);
  finalize = λ h s. (pos 0, s);
  reset = λ h s. (pos 0, s);
  clear_bindings = λ h s. (pos 0, unbound);
  step = λ h s. (pos 101, s);
  bind_value = λ h i b s. (pos 0, put i (stored b) s);
  bind_parameter_count = λ h s. pos 2;
  bind_parameter_index = λ h name s. if text_eq name (codes ":a") then pos 1 else pos 0;
  column_count = λ h s. pos 0;
  column_name = λ h i s. [];
  column_decltype = λ h i s. [];
  column_type = λ h i s. pos 5;
  column_int64 = λ h i s. pos 0;
  column_double = λ h i s. 0;
  column_text = λ h i s. [];
  column_blob = λ h i s. none;
  last_insert_rowid = λ h s. pos 0;
  changes64 = λ h s. pos 0;
  cancelled = λ c s. none;
  fired = λ c s. false;
  time_parse = λ layout loc t. none;
}

table_params : KeepsParams table (λ h s. s)
table_params = record {
  clear_params = λ h s. refl;
  bind_params = λ h i b s c e. refl;
  reset_index = λ h n s. refl;
  clear_index = λ h n s. refl;
  bind_index = λ h n i b s. refl;
}

abbrev two_args : List NamedValue
two_args =
    record { name = codes "a"; ordinal = pos 1; value = Value.uint8 4 }
    ∷ record {
      name = [];
      ordinal = pos 2;
      value = Value.valuer_ok (Value.string (98 ∷ 0 ∷ 99 ∷ []));
    }
    ∷ []

abbrev table_env : StmtEnv Params
table_env = record {
  env = record {
    conn = record { db = some 9; config = world_config (codes "a.db"); closed = false };
    lib = put (pos 2) (bind_int64 (pos 6)) unbound;
  };
  stmt = record { handle = some 10; ephemeral = false; stmt_closed = false };
}

two_bound : bind_named_values table two_args table_env ≡ (
  ok tt,
  record table_env {
    env = record table_env.env {
      lib = put (pos 2) (bind_text (codes "b")) (put (pos 1) (bind_int64 (pos 4)) unbound);
    };
  },
)
unfolding bind_named_values bind_args bind_arg bind_value bind_result resolve_index on_handle
    normalize_value error_from_result bits passed c_text ◌>>=◌
two_bound = refl

bind_named_values-Assigns_example :
    Assigns
      (λ n. table.bind_parameter_index (some 10) n table_env.lib)
      two_args
      unbound
      (bind_named_values table two_args table_env).1.lib
bind_named_values-Assigns_example =
    bind_named_values-Assigns table_params two_args table_env (ap (λ r. r.0) two_bound)
