-- ===== src/Sqlite3/Errors.antt =====
-- sqlite3.go: error values made from result codes.
pub mod Messages
use purego_gen.Prelude.{ℕ, List, [], ◌∷◌, ◌++◌, Option, none, some, ◌==◌, if◌then◌else◌}
use purego_gen.Prelude.Int.{ℤ, pos, bits, to_int32, ◌==ℤ◌}
use purego_gen.Prelude.Text.{Text, codes, is_empty}
use purego_gen.Prelude.Decimal.{print_int}
use purego_gen.Go.{
  GoError, SqliteError, sqlite_error, context_error, Context, no_context, background, cancellable,
}
use purego_gen.Sqlite3.Codes.{sqlite_ok, sqlite_interrupt}
use purego_gen.Sqlite3.Extern.{Extern, Handle}

-- `code & 0xff` on an int32.
abbrev pub low_byte : ℤ → ℕ
low_byte = bits 8

abbrev pub find_case : ℕ → List (ℕ × Text) → Option Text
find_case n [] = none
find_case n ((k, t) ∷ cases) = if n == k then some t else find_case n cases

-- The cases of the switch, SQLITE_ERROR to SQLITE_NOTADB.
unfoldable pub primary_messages : List (ℕ × Text)
primary_messages =
    (1, codes "SQL error or missing database")
    ∷ (2, codes "internal logic error in SQLite")
    ∷ (3, codes "access permission denied")
    ∷ (4, codes "callback requested abort")
    ∷ (5, codes "database is locked")
    ∷ (6, codes "table is locked")
    ∷ (7, codes "out of memory")
    ∷ (8, codes "attempt to write a readonly database")
    ∷ (9, codes "operation interrupted")
    ∷ (10, codes "disk I/O error")
    ∷ (11, codes "database disk image is malformed")
    ∷ (12, codes "unknown opcode")
    ∷ (13, codes "database or disk is full")
    ∷ (14, codes "unable to open database file")
    ∷ (15, codes "locking protocol error")
    ∷ (16, codes "database is empty")
    ∷ (17, codes "database schema changed")
    ∷ (18, codes "string or blob too big")
    ∷ (19, codes "constraint failed")
    ∷ (20, codes "datatype mismatch")
    ∷ (21, codes "library routine called out of sequence")
    ∷ (22, codes "large file support unavailable")
    ∷ (23, codes "authorization denied")
    ∷ (24, codes "auxiliary database format error")
    ∷ (25, codes "bind or column index out of range")
    ∷ (26, codes "file is not a database")
    ∷ []

-- The default case prints the code.
abbrev pub or_code : ℤ → Option Text → Text
or_code code none = codes "sqlite result code " ++ print_int code
or_code code (some t) = t

unfoldable pub sqlite_error_string : ℤ → Text
sqlite_error_string code = or_code code (find_case (low_byte code) primary_messages)

-- The methods Error of ErrNo, ErrNoExtended and Error.
unfoldable pub err_no_error : ℤ → Text
unfolding sqlite_error_string
err_no_error code = sqlite_error_string (to_int32 code)

unfoldable pub err_no_extended_error : ℤ → Text
unfolding sqlite_error_string
err_no_extended_error code = sqlite_error_string (pos (low_byte (to_int32 code)))

unfoldable pub error_text : SqliteError → Text
unfolding sqlite_error_string
error_text e = if is_empty e.err then sqlite_error_string (to_int32 e.code) else e.err

module _ {S : Type 0} (x : Extern S) where
  -- The message of a connection's database, where it has one.
  abbrev message_for : Handle → ℤ → S → Text
  message_for none code s = sqlite_error_string code
  message_for (some db) code s =
      if is_empty (x.errmsg (some db) s) then sqlite_error_string code else x.errmsg (some db) s

  unfoldable pub error_from_result : Handle → ℤ → S → Option GoError
  error_from_result db code s =
      if code ==ℤ sqlite_ok
      then none
      else some (
          sqlite_error (record {
            code = pos (low_byte code);
            extended_code = code;
            err = message_for db code s;
          }))

  -- ctx.Err(), `none` being a nil error; the method of a nil context panics.
  unfoldable pub context_err : Context → S → Option GoError
  context_err no_context s = none
  context_err background s = none
  context_err (cancellable c) s = elim (x.cancelled c s) [
    | none ↦ none
    | some why ↦ some (context_error why)
  ]

  abbrev or_error : Option GoError → Option GoError → Option GoError
  or_error none e = e
  or_error (some c) e = some c

  unfoldable pub error_from_context : Handle → ℤ → Context → S → Option GoError
  unfolding error_from_result context_err
  error_from_context db code ctx s =
      if code ==ℤ sqlite_interrupt
      then or_error (context_err ctx s) (error_from_result db code s)
      else error_from_result db code s
