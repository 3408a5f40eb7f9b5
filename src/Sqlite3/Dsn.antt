-- ===== src/Sqlite3/Dsn.antt =====
-- sqlite3.go: parseDSN and its helpers. The order in which Go ranges over the parsed query is an
-- argument of the model, and so is what time.LoadLocation says of a name.
pub mod Order
pub mod Plain
use purego_gen.Prelude.{
  ℕ, ◌+◌, ◌/◌, ◌%◌, ◌≡◌, Bool, true, false, not, ◌&&◌, ◌||◌, List, [], ◌∷◌, ◌++◌, Option, none,
  some, leb, ◌==◌, if◌then◌else◌,
}
use purego_gen.Prelude.Int.{ℤ, pos, to_int32}
use purego_gen.Prelude.Text.{has_prefix, Text, codes, is_empty, text_eq}
use purego_gen.Go.{GoError, errorf, wrap, str}
use purego_gen.Go.Exec.{Outcome, ok, err, panics, diverges}
use purego_gen.Go.Url.{Values, put, parse_query, encode, atoi}
use purego_gen.Sqlite3.State.{ConnectionConfig}
use purego_gen.Sqlite3.TimeText.{to_upper}

-- The SQLITE_OPEN_ constants, and the sets of them that the driver makes.
abbrev pub open_readonly : ℕ
open_readonly = 1

abbrev pub open_readwrite : ℕ
open_readwrite = 2

abbrev pub open_create : ℕ
open_create = 4

abbrev pub open_uri : ℕ
open_uri = 64

abbrev pub open_memory : ℕ
open_memory = 128

abbrev pub open_fullmutex : ℕ
open_fullmutex = 65536

-- `flags |= SQLITE_OPEN_URI`: the bit is set.
abbrev pub or_uri : ℕ → ℕ
or_uri flags = if flags / open_uri % 2 == 1 then flags else flags + open_uri

abbrev to_lower_byte : ℕ → ℕ
to_lower_byte c = if leb b'A' c && leb c b'Z' then c + 32 else c

-- strings.ToLower on ASCII text.
abbrev pub to_lower : Text → Text
to_lower [] = []
to_lower (c ∷ cs) = to_lower_byte c ∷ to_lower cs

abbrev pub cut_question : Text → Text × Text
cut_question [] = ([], [])
cut_question (c ∷ cs) =
    let rest = cut_question cs in if c == b'?' then ([], cs) else (c ∷ rest.0, rest.1)

unfoldable pub split_dsn : Text → Text × Text
split_dsn name = cut_question name

unfoldable pub rebuild_filename : Text → Values → Text
rebuild_filename base [] = base
rebuild_filename base (kv ∷ query) =
    if has_prefix base (codes "file:")
    then base ++ b'?' ∷ encode (kv ∷ query)
    else if text_eq base (codes ":memory:")
    then codes "file::memory:?" ++ encode (kv ∷ query)
    else codes "file:" ++ (base ++ b'?' ∷ encode (kv ∷ query))

abbrev one_of : Text → List Text → Bool
one_of t [] = false
one_of t (n ∷ ns) = text_eq t n || one_of t ns

unfoldable pub parse_bool_option : Text → Outcome Bool
parse_bool_option value =
    if one_of (to_lower value) (codes "1" ∷ codes "true" ∷ codes "yes" ∷ codes "on" ∷ [])
    then ok true
    else if one_of (to_lower value) (codes "0" ∷ codes "false" ∷ codes "no" ∷ codes "off" ∷ [])
    then ok false
    else err (errorf "sqlite3: invalid boolean value %q" (str value ∷ []))

abbrev pub first_value : List Text → Text
first_value [] = []
first_value (v ∷ vs) = v

-- What one key of the query asks for: the branch of the switch that it takes, with what the branch has
-- read from the value.
pub data Setting : Type 0 where
  busy_timeout : ℤ → Setting
  foreign_keys : Bool → Setting
  journal_mode synchronous tx_lock : Text → Setting
  location : Option Text → Setting
  mode : ℕ → Setting
  cache : Setting
  -- Any other key; whether it begins with "_".
  plain : Bool → Setting

abbrev pub on_ok : {A : Type 0} → (A → Setting) → Outcome A → Outcome Setting
on_ok f (ok a) = ok (f a)
on_ok f (err e) = err e
on_ok f panics = panics
on_ok f diverges = diverges

unfoldable pub timeout_setting : Text → Option ℤ → Outcome Setting
timeout_setting text none = err (errorf "sqlite3: invalid busy timeout %q" (str text ∷ []))
timeout_setting text (some n) = ok (busy_timeout (to_int32 n))

unfoldable pub mode_setting : Text → Outcome Setting
mode_setting m =
    if text_eq m (codes "ro")
    then ok (mode (open_readonly + open_uri + open_fullmutex))
    else if text_eq m (codes "rw")
    then ok (mode (open_readwrite + open_uri + open_fullmutex))
    else if text_eq m (codes "rwc")
    then ok (mode (open_readwrite + open_create + open_uri + open_fullmutex))
    else if text_eq m (codes "memory")
    then ok (mode (open_readwrite + open_create + open_memory + open_uri + open_fullmutex))
    else err (errorf "sqlite3: unsupported mode %q" (str m ∷ []))

-- The configuration so far, and the keys that stay in the file name.
pub record Parsed : Type 0 where
  pub config : ConnectionConfig
  pub preserved : Values

-- What the branch writes.
unfoldable pub apply_setting : Text → List Text → Setting → Parsed → Parsed
apply_setting key values (busy_timeout n) p = record p {
  config = record p.config { busy_timeout = n };
}
apply_setting key values (foreign_keys b) p = record p {
  config = record p.config { foreign_keys = some b };
}
apply_setting key values (journal_mode t) p = record p {
  config = record p.config { journal_mode = t };
}
apply_setting key values (synchronous t) p = record p {
  config = record p.config { synchronous = t };
}
apply_setting key values (tx_lock t) p = record p { config = record p.config { tx_lock = t } }
apply_setting key values (location l) p = record p { config = record p.config { location = l } }
apply_setting key values (mode flags) p = record {
  config = record p.config { flags = flags };
  preserved = put key values p.preserved;
}
apply_setting key values cache p = record {
  config = record p.config { flags = or_uri p.config.flags };
  preserved = put key values p.preserved;
}
apply_setting key values (plain true) p = record p { preserved = put key values p.preserved }
apply_setting key values (plain false) p = record {
  config = record p.config { flags = or_uri p.config.flags };
  preserved = put key values p.preserved;
}

abbrev pub applied : Text → List Text → Outcome Setting → Parsed → Outcome Parsed
applied key values (ok s) p = ok (apply_setting key values s p)
applied key values (err e) p = err e
applied key values panics p = panics
applied key values diverges p = diverges

abbrev pub and_then : Outcome Parsed → (Parsed → Outcome Parsed) → Outcome Parsed
and_then (ok p) f = f p
and_then (err e) f = err e
and_then panics f = panics
and_then diverges f = diverges

module _ (load_location : Text → Option GoError) where
  abbrev loaded : Text → Option GoError → Outcome (Option Text)
  loaded value none = ok (some value)
  loaded value (some e) = err (wrap "sqlite3: load location %q: %w" (str value ∷ []) e)

  unfoldable pub parse_location : Text → Outcome (Option Text)
  parse_location value =
      if is_empty value
      then ok none
      else if text_eq value (codes "auto")
      then ok (some (codes "Local"))
      else loaded value (load_location value)

  -- The switch on the key.
  unfoldable pub setting_of : Text → List Text → Outcome Setting
  setting_of key values =
      let value = first_value values in
      if one_of key (codes "_busy_timeout" ∷ codes "_timeout" ∷ [])
      then timeout_setting value (atoi value)
      else if one_of key (codes "_foreign_keys" ∷ codes "_fk" ∷ [])
      then on_ok foreign_keys (parse_bool_option value)
      else if one_of key (codes "_journal_mode" ∷ codes "_journal" ∷ [])
      then ok (journal_mode (to_upper value))
      else if one_of key (codes "_synchronous" ∷ codes "_sync" ∷ [])
      then ok (synchronous (to_upper value))
      else if text_eq key (codes "_txlock")
      then ok (tx_lock (to_lower value))
      else if one_of key (codes "loc" ∷ codes "_loc" ∷ [])
      then on_ok location (parse_location value)
      else if text_eq key (codes "mode")
      then mode_setting (to_lower value)
      else if text_eq key (codes "cache")
      then ok cache
      else ok (plain (has_prefix key (codes "_")))

  -- The loop over the keys, in the order of the list.
  unfoldable pub parse_entries : Values → Parsed → Outcome Parsed
  parse_entries [] p = ok p
  parse_entries ((key, values) ∷ es) p =
      and_then (applied key values (setting_of key values) p) (λ q. parse_entries es q)

  abbrev pub default_config : Text → ConnectionConfig
  default_config name = record {
    filename = if is_empty name then codes ":memory:" else name;
    flags = open_readwrite + open_create + open_fullmutex;
    busy_timeout = pos 0;
    foreign_keys = none;
    journal_mode = [];
    synchronous = [];
    tx_lock = codes "deferred";
    location = none;
  }

  -- What follows the loop.
  unfoldable pub finish : Text → Parsed → ConnectionConfig
  finish base p =
      let filename = rebuild_filename base p.preserved in
      let flags = p.config.flags in
      record p.config {
        filename = filename;
        flags = if has_prefix filename (codes "file:") then or_uri flags else flags;
      }

  abbrev pub finished : Text → Outcome Parsed → Outcome ConnectionConfig
  finished base (ok p) = ok (finish base p)
  finished base (err e) = err e
  finished base panics = panics
  finished base diverges = diverges

  abbrev pub parse_values :
      (Values → Values) → Text → Text → Option Values → Outcome ConnectionConfig
  parse_values range name base none = err (errorf "sqlite3: parse dsn query: %w" [])
  parse_values range name base (some values) =
      finished base
        (parse_entries (range values) (record { config = default_config name; preserved = [] }))

  -- `range` is the order in which the loop goes through the keys.
  unfoldable pub parse_dsn : (Values → Values) → Text → Outcome ConnectionConfig
  unfolding split_dsn
  parse_dsn range name =
      let (base, query) = split_dsn name in parse_values range name base (parse_query query)
