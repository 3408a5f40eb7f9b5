-- ===== src/Sqlite3/Dsn/Plain.antt =====
-- sqlite3.go: data source names without options.
use purego_gen.Prelude.{◌≡◌, refl, false, [], ◌∷◌, none, Option, arith, if◌then◌else◌}
use purego_gen.Prelude.Int.{pos}
use purego_gen.Prelude.Text.{has_prefix, Text, codes}
use purego_gen.Go.{GoError}
use purego_gen.Go.Exec.{ok}
use purego_gen.Go.Url.{Values, parse_query, has_byte}
use purego_gen.Sqlite3.State.{ConnectionConfig}
use purego_gen.Sqlite3.Dsn.{
  split_dsn, cut_question, or_uri, rebuild_filename, parse_entries, finish, parse_dsn,
}

cut_question-plain : (name : Text) → has_byte b'?' name ≡ false → cut_question name ≡ (name, [])
cut_question-plain [] h = refl
cut_question-plain (c ∷ cs) h = ground (arith, cut_question-plain cs)

abbrev pub plain_config : Text → ConnectionConfig
plain_config name = record {
  filename = name;
  flags = if has_prefix name (codes "file:") then or_uri 65542 else 65542;
  busy_timeout = pos 0;
  foreign_keys = none;
  journal_mode = [];
  synchronous = [];
  tx_lock = codes "deferred";
  location = none;
}

-- A data source name without a question mark is used as the file name, byte for byte, with the default
-- options. The empty name stays empty: it does not become ":memory:".
pub parse_dsn_plain :
    (load_location : Text → Option GoError) (range : Values → Values) (name : Text)
    → range [] ≡ []
    → has_byte b'?' name ≡ false
    → parse_dsn load_location range name ≡ ok (plain_config name)
unfolding parse_dsn parse_entries finish rebuild_filename split_dsn parse_query
parse_dsn_plain load_location range name r h = rw (cut_question-plain name h) (simp r refl)
