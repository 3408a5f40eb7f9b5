-- ===== src/Sqlite3/Extern.antt =====
-- What the driver calls and does not implement: the SQLite library behind sqlite3/sqlite3sys, and
-- the contexts that its callers cancel. `S` is the state of all of that. A database or a statement
-- is a C pointer, `none` being NULL.
use purego_gen.Prelude.{
  ℕ, ◌≤◌, ◌<◌, ◌≡◌, Bool, true, false, Option, none, some, List, [], ◌∷◌, ◌==◌, if◌then◌else◌,
}
use purego_gen.Prelude.Int.{ℤ, ◌==ℤ◌}
use purego_gen.Prelude.Text.{Text}
use purego_gen.Go.{GoError, Time}
use purego_gen.Sqlite3.Codes.{sqlite_ok, sqlite_row}

abbrev pub Handle : Type 0
Handle = Option ℕ

-- One of the C functions sqlite3_bind_null, _int64, _double, _text and _blob, with its argument: a C string,
-- and the bytes at a pointer, or NULL.
pub data Binding : Type 0 where
  bind_null : Binding
  bind_int64 : ℤ → Binding
  bind_double : ℕ → Binding
  bind_text : Text → Binding
  bind_blob : Option Text → Binding

-- A Go string becomes a C string, and BindText and ResultText pass -1 for its length: SQLite reads it up to
-- its first zero byte.
unfoldable pub c_text : Text → Text
c_text [] = []
c_text (b ∷ bs) = let rest = c_text bs in if b == 0 then [] else b ∷ rest

-- BindBlobBytes passes NULL for a slice without bytes.
abbrev pub slice_pointer : Option Text → Option Text
slice_pointer none = none
slice_pointer (some []) = none
slice_pointer (some (b ∷ bs)) = some (b ∷ bs)

-- What the wrappers of sqlite3sys pass on.
unfoldable pub passed : Binding → Binding
unfolding c_text
passed (bind_text t) = bind_text (c_text t)
passed (bind_blob b) = bind_blob (slice_pointer b)
passed b = b

pub record Extern (S : Type 0) : Type 0 where
  -- sqlite3sys.Load
  pub load : S → Option GoError × S
  pub open_v2 : Text → ℤ → S → ℤ × Handle × S
  pub close_v2 : Handle → S → ℤ × S
  pub busy_timeout : Handle → ℤ → S → ℤ × S
  pub errmsg : Handle → S → Text
  pub prepare_v2 : Handle → Text → S → ℤ × Handle × S
  pub finalize : Handle → S → ℤ × S
  pub reset : Handle → S → ℤ × S
  pub clear_bindings : Handle → S → ℤ × S
  pub step : Handle → S → ℤ × S
  pub bind_value : Handle → ℤ → Binding → S → ℤ × S
  pub bind_parameter_count : Handle → S → ℤ
  pub bind_parameter_index : Handle → Text → S → ℤ
  pub column_count : Handle → S → ℤ
  pub column_name : Handle → ℤ → S → Text
  pub column_decltype : Handle → ℤ → S → Text
  pub column_type : Handle → ℤ → S → ℤ
  pub column_int64 : Handle → ℤ → S → ℤ
  pub column_double : Handle → ℤ → S → ℕ
  pub column_text : Handle → ℤ → S → Text
  pub column_blob : Handle → ℤ → S → Option Text
  pub last_insert_rowid : Handle → S → ℤ
  pub changes64 : Handle → S → ℤ
  -- The reason why a context is done, once it is, and whether the goroutine that waits for it saw
  -- that before it was told to stop.
  pub cancelled : ℕ → S → Option Text
  pub fired : ℕ → S → Bool
  -- time.Parse, and time.ParseInLocation where a location is given: layout, location, text.
  pub time_parse : Text → Option Text → Text → Option Time

-- The first occurrence goes.
abbrev pub erase : ℕ → List ℕ → List ℕ
erase h [] = []
erase h (x ∷ xs) = if x == h then xs else x ∷ erase h xs

abbrev pub added : Handle → List ℕ → List ℕ
added none l = l
added (some h) l = h ∷ l

abbrev pub dropped : Handle → List ℕ → List ℕ
dropped none l = l
dropped (some h) l = erase h l

-- Binding, stepping and resetting leave a part of the state as it is.
pub record IsSilent {S V : Type 0} (x : Extern S) (view : S → V) : Type 0 where
  pub reset_view : (h : Handle) (s : S) → view (x.reset h s).1 ≡ view s
  pub clear_bindings_view : (h : Handle) (s : S) → view (x.clear_bindings h s).1 ≡ view s
  pub step_view : (h : Handle) (s : S) → view (x.step h s).1 ≡ view s
  pub bind_value_view :
      (h : Handle) (i : ℤ) (b : Binding) (s : S) → view (x.bind_value h i b s).1 ≡ view s

-- What sqlite3.h says of the prepared statements that are not yet finalized: prepare adds one or
-- leaves a NULL pointer, always so if it fails; finalize takes the statement away whatever code it
-- returns; nothing else that the driver calls on a statement changes the set.
pub record KeepsStmts {S : Type 0} (x : Extern S) (live : S → List ℕ) : Type 0 where
  pub silent : IsSilent x live
  pub prepare_live :
      (db : Handle) (q : Text) (s : S)
      → live (x.prepare_v2 db q s).2 ≡ added (x.prepare_v2 db q s).1 (live s)
  pub prepare_fails :
      (db : Handle) (q : Text) (s : S)
      → (x.prepare_v2 db q s).0 ==ℤ sqlite_ok ≡ false
      → (x.prepare_v2 db q s).1 ≡ none
  pub finalize_live : (h : Handle) (s : S) → live (x.finalize h s).1 ≡ dropped h (live s)

-- And of the open databases: open adds one, or leaves NULL, whatever code it returns; close takes it
-- away.
pub record KeepsDbs {S : Type 0} (x : Extern S) (opened : S → List ℕ) : Type 0 where
  pub silent : IsSilent x opened
  pub load_opened : (s : S) → opened (x.load s).1 ≡ opened s
  pub open_opened :
      (name : Text) (flags : ℤ) (s : S)
      → opened (x.open_v2 name flags s).2 ≡ added (x.open_v2 name flags s).1 (opened s)
  pub close_opened : (h : Handle) (s : S) → opened (x.close_v2 h s).1 ≡ dropped h (opened s)
  pub busy_timeout_opened :
      (h : Handle) (ms : ℤ) (s : S) → opened (x.busy_timeout h ms s).1 ≡ opened s
  pub prepare_opened : (db : Handle) (q : Text) (s : S) → opened (x.prepare_v2 db q s).2 ≡ opened s
  pub finalize_opened : (h : Handle) (s : S) → opened (x.finalize h s).1 ≡ opened s

-- A statement yields finitely many rows: each SQLITE_ROW leaves fewer of them, and no statement has
-- more than `most` left.
pub record YieldsFinitely {S : Type 0} (x : Extern S) (most : ℕ) : Type 0 where
  pub rows_left : Handle → S → ℕ
  pub step_row :
      (h : Handle) (s : S)
      → (x.step h s).0 ==ℤ sqlite_row ≡ true
      → rows_left h (x.step h s).1 < rows_left h s
  pub bounded : (h : Handle) (s : S) → rows_left h s ≤ most
