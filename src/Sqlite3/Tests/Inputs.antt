-- ===== src/Sqlite3/Tests/Inputs.antt =====
-- Concrete values, result codes and data source names.
use mathlib.Core.Logic.Or
use mathlib.Core.List.{Permᴰ, Pairwise, eq-or-mem_of_mem-cons, not-mem-nil}
use mathlib.Core.List.Permᴰ
use purego_gen.Prelude.{◌≡◌, refl, ◌≢◌, false, [], ◌∷◌, Option, none, some, arith, subst, sym}
use purego_gen.Prelude.Int.{bits, pos}
use purego_gen.Prelude.Text.{Text, codes, is_empty}
use purego_gen.Go.{GoError, Value, SqliteError}
use purego_gen.Go.Exec.{ok}
use purego_gen.Go.Url.{Values, parse_query, put, encode}
use purego_gen.Sqlite3.State.{ConnectionConfig}
use purego_gen.Sqlite3.Codes.{sqlite_ok}
use purego_gen.Sqlite3.Errors.{low_byte, error_text, error_from_result}
use purego_gen.Sqlite3.Errors.Messages.{error_from_result_keeps}
use purego_gen.Sqlite3.Values.{normalize_value}
use purego_gen.Sqlite3.Values.Normal.{IsExact, normalize_value-IsExact}
use purego_gen.Sqlite3.Dsn.{
  setting_of, mode_setting, parse_entries, apply_setting, finish, rebuild_filename, parse_dsn,
  split_dsn,
}
use purego_gen.Sqlite3.Dsn.Plain.{plain_config, parse_dsn_plain}
use purego_gen.Sqlite3.Dsn.Order.{IsApart, IsApart-prop, parse_dsn_order}
use purego_gen.Sqlite3.Tests.World.{world, empty_world}

-- 1555 is SQLITE_CONSTRAINT_PRIMARYKEY.
abbrev primary_key_error : SqliteError
primary_key_error = record {
  code = pos 19;
  extended_code = pos 1555;
  err = codes "near: syntax error";
}

error_from_result_keeps_example :
    (pos 1555 ≢ sqlite_ok)
    × (primary_key_error.extended_code ≡ pos 1555)
    × (primary_key_error.code ≡ pos (low_byte (pos 1555)))
    × (is_empty (error_text primary_key_error) ≡ false)
unfolding error_from_result bits
error_from_result_keeps_example =
    error_from_result_keeps world (some 9) (pos 1555) empty_world primary_key_error refl

normalize_value-IsExact_example :
    IsExact
      (pos 9223372036854775808)
      (normalize_value (Value.valuer_ok (Value.uint64 9223372036854775808)))
normalize_value-IsExact_example =
    normalize_value-IsExact (Value.valuer_ok (Value.uint64 9223372036854775808))
      (pos 9223372036854775808) (omega arith) refl

abbrev no_zones : Text → Option GoError
no_zones name = none

parse_dsn_plain_example :
    parse_dsn no_zones (λ vs. vs) (codes "file:a.db") ≡ ok (plain_config (codes "file:a.db"))
parse_dsn_plain_example = parse_dsn_plain no_zones (λ vs. vs) (codes "file:a.db") refl refl

abbrev two_keys : Values
two_keys = (codes "cache", codes "shared" ∷ []) ∷ (codes "mode", codes "memory" ∷ []) ∷ []

abbrev reversed : Values → Values
reversed (a ∷ b ∷ []) = b ∷ a ∷ []
reversed vs = vs

abbrev memory_config : ConnectionConfig
memory_config = record (plain_config (codes "file:a.db?cache=shared&mode=memory")) { flags = 65734 }

keys-IsApart :
    IsApart no_zones (codes "cache", codes "shared" ∷ []) (codes "mode", codes "memory" ∷ [])
unfolding setting_of mode_setting
keys-IsApart = ((λ e. cc), refl)

two_keys-IsApart : Pairwise (IsApart no_zones) two_keys
two_keys-IsApart =
    Pairwise.cons
      (λ a m.
        Or.elim (IsApart-prop no_zones _ a) (eq-or-mem_of_mem-cons m)
          (λ e. subst (IsApart no_zones _) (sym e) keys-IsApart) (λ n. absurd (not-mem-nil n)))
      (Pairwise.cons (λ a m. absurd (not-mem-nil m)) Pairwise.nil)

parse_dsn_order_example :
    parse_dsn no_zones reversed (codes "file:a.db?cache=shared&mode=memory") ≡ ok memory_config
unfolding parse_dsn parse_query parse_entries setting_of mode_setting apply_setting finish
    rebuild_filename split_dsn put encode
parse_dsn_order_example =
    parse_dsn_order no_zones (λ vs. vs) reversed (codes "file:a.db?cache=shared&mode=memory")
      two_keys memory_config refl (Permᴰ.refl two_keys) (Permᴰ.swap refl refl) two_keys-IsApart refl
