-- ===== src/Go.antt =====
-- What the drivers use of Go: values of type `any`, errors, contexts, and code that mutates state
-- and may fail or panic.
pub mod Exec
pub mod Keeps
pub mod Reflect
pub mod Url
use purego_gen.Prelude.{ℕ, ◌%◌, ◌^◌, Bool, List, Option}
use purego_gen.Prelude.Int.{ℤ}
use purego_gen.Prelude.Text.{Text}
use Prim.Native.String.{String}

-- A time.Time, broken down in its own zone; the zone is its offset from UTC in minutes.
pub record Time : Type 0 where
  pub year : ℕ
  pub month : ℕ
  pub day : ℕ
  pub hour : ℕ
  pub minute : ℕ
  pub second : ℕ
  pub nanosecond : ℕ
  pub offset : ℤ

-- Argument of a format string.
pub data Arg : Type 0 where
  str : Text → Arg
  num : ℤ → Arg
  type_id : ℕ → Arg

-- sqlite3.Error
pub record SqliteError : Type 0 where
  pub code : ℤ
  pub extended_code : ℤ
  pub err : Text

-- An error value. `errorf` keeps the format string and the arguments of fmt.Errorf.
pub data GoError : Type 0 where
  bad_conn eof : GoError
  context_error : Text → GoError
  errorf : String → List Arg → GoError
  wrap : String → List Arg → GoError → GoError
  sqlite_error : SqliteError → GoError
  foreign : Text → GoError

-- A value of type `any`. A float is its bit pattern as a float64 (each float32 is one), a nil slice
-- is `bytes none`, and `other` stands for every type that is not named. `valuer_ok v` is a
-- driver.Valuer whose Value method returns `v`, `valuer_err e` one whose method fails. Every chain of
-- Valuers comes to an end here: a Valuer whose Value returns itself, or another Valuer without end, is not a
-- `Value`, and neither is one whose method panics.
pub data Value : Type 0 where
  nil : Value
  int64 : ℤ → Value
  float64 : ℕ → Value
  bool : Bool → Value
  string : Text → Value
  bytes : Option Text → Value
  time : Time → Value
  int int8 int16 int32 : ℤ → Value
  uint uint8 uint16 uint32 uint64 : ℕ → Value
  float32 : ℕ → Value
  valuer_ok : Value → Value
  valuer_err : GoError → Value
  other : ℕ → Value

-- driver.NamedValue
pub record NamedValue : Type 0 where
  pub name : Text
  pub ordinal : ℤ
  pub value : Value

-- A context: nil, one that is never done (context.Background), or one that may become done.
pub data Context : Type 0 where
  no_context background : Context
  cancellable : ℕ → Context
