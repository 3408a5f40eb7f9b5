-- ===== src/Sqlite3/Rows.antt =====
-- sqlite3.go: the methods of SQLiteRows.
pub mod Lifecycle
pub mod Query
pub mod Fetched
use purego_gen.Prelude.{
  ℕ, zero, suc, ◌+◌, Bool, true, false, ◌&&◌, ◌||◌, List, [], ◌∷◌, Option, none, some, get_elem?,
  if◌then◌else◌,
}
use purego_gen.Prelude.Int.{ℤ, pos, to_int32, ◌==ℤ◌}
use purego_gen.Prelude.Text.{Text, codes, text_eq}
use purego_gen.Go.{Value, nil, int64, float64, string, bytes, time, Time, GoError, eof, Context}
use purego_gen.Go.Exec.{
  Exec, Outcome, ok, err, panics, diverges, pure, fail, lift, gets, state, modify, ◌>>=◌, ◌>>◌,
  check,
}
use purego_gen.Sqlite3.Codes.{
  sqlite_row, sqlite_done, sqlite_interrupt, sqlite_integer, sqlite_float, sqlite_text, sqlite_blob,
  sqlite_null,
}
use purego_gen.Sqlite3.Extern.{Extern, Handle}
use purego_gen.Sqlite3.Errors.{context_err}
use purego_gen.Sqlite3.State.{Conn, Stmt, Rows, Env, StmtEnv, RowsEnv, in_stmt}
use purego_gen.Sqlite3.TimeText.{normalize_decl_type, looks_like_time_type, parse_sqlite_time}
use purego_gen.Sqlite3.Bind.{on_handle, result_error}
use purego_gen.Sqlite3.Stmt.{close_stmt, reset_for_reuse, interrupt_watcher, stop_watcher}

-- The Go types that ColumnTypeScanType names.
pub data ScanType : Type 0 where
  scan_int64 scan_float64 scan_bytes scan_time scan_string : ScanType

abbrev one_of : Text → List Text → Bool
one_of t [] = false
one_of t (n ∷ ns) = text_eq t n || one_of t ns

unfoldable pub column_type_database_type_name : Rows → ℕ → Outcome Text
column_type_database_type_name r index = elim (get_elem? r.decl_types index) [
  | none ↦ panics
  | some t ↦ ok (normalize_decl_type t)
]

scan_type_of : Text → ScanType
scan_type_of t =
    if one_of t (codes "INT" ∷ codes "INTEGER" ∷ codes "BIGINT" ∷ [])
    then scan_int64
    else if one_of t
        (codes "REAL" ∷ codes "DOUBLE" ∷ codes "FLOAT" ∷ codes "NUMERIC" ∷ codes "DECIMAL" ∷ [])
    then scan_float64
    else if text_eq t (codes "BLOB")
    then scan_bytes
    else if one_of t (codes "DATE" ∷ codes "DATETIME" ∷ codes "TIMESTAMP" ∷ [])
    then scan_time
    else scan_string

unfoldable pub column_type_scan_type : Rows → ℕ → Outcome ScanType
unfolding scan_type_of column_type_database_type_name
column_type_scan_type r index = elim (column_type_database_type_name r index) [
  | ok t ↦ ok (scan_type_of t)
  | err e ↦ err e
  | panics ↦ panics
  | diverges ↦ diverges
]

-- ColumnTypeLength, ColumnTypeNullable and ColumnTypePrecisionScale.
unfoldable pub column_type_length : ℕ → ℤ × Bool
column_type_length index = (pos 0, false)

unfoldable pub column_type_nullable : ℕ → Bool × Bool
column_type_nullable index = (true, false)

unfoldable pub column_type_precision_scale : ℕ → ℤ × ℤ × Bool
column_type_precision_scale index = (pos 0, pos 0, false)

unfoldable pub columns : Rows → List Text
columns r = r.names

-- `_ = m()`.
abbrev ignored : {S A : Type 0} → Outcome A → Exec S (Unit {0})
ignored (ok a) s = (ok tt, s)
ignored (err e) s = (ok tt, s)
ignored panics s = (panics, s)
ignored diverges s = (diverges, s)

unfoldable pub ignore : {S A : Type 0} → Exec S A → Exec S (Unit {0})
ignore m s = ignored (m s).0 (m s).1

module _ {S : Type 0} (x : Extern S) where
  -- What closeOnce runs once.
  unfoldable pub close_rows : Exec (RowsEnv S) (Unit {0})
  close_rows = do
    e ← state
    if e.rows.once then pure tt else do
      modify (λ v. record v { rows = record v.rows { once = true; rows_closed = true } })
      if e.stmt.ephemeral then in_stmt (close_stmt x) else in_stmt (reset_for_reuse x)

  -- A text in a column of a time type, read in the connection's location.
  abbrev pub text_value : Text → Option Text → Option Text → Outcome Value
  text_value text none decl = ok (string text)
  text_value text (some loc) none = panics
  text_value text (some loc) (some decl) =
      if looks_like_time_type decl
      then elim (parse_sqlite_time x text loc) [ none ↦ ok (string text) | some t ↦ ok (time t) ]
      else ok (string text)

  unfoldable pub column_value : ℕ → RowsEnv S → Outcome Value
  column_value index e =
      let column = to_int32 (pos index) in
      let kind = x.column_type e.stmt.handle column e.lib in
      if kind ==ℤ sqlite_integer
      then ok (int64 (x.column_int64 e.stmt.handle column e.lib))
      else if kind ==ℤ sqlite_float
      then ok (float64 (x.column_double e.stmt.handle column e.lib))
      else if kind ==ℤ sqlite_text
      then text_value (x.column_text e.stmt.handle column e.lib) e.conn.config.location
          (get_elem? e.rows.decl_types index)
      else if kind ==ℤ sqlite_blob
      then ok (bytes (x.column_blob e.stmt.handle column e.lib))
      else if kind ==ℤ sqlite_null
      then ok nil
      else ok (string (x.column_text e.stmt.handle column e.lib))

  -- The loop over `dest`: `count` columns from `index` on.
  unfoldable pub read_columns : ℕ → ℕ → Exec (RowsEnv S) (List Value)
  read_columns index zero = pure []
  read_columns index (suc count) = do
    e ← state
    value ← lift (column_value index e)
    rest ← read_columns (index + 1) count
    pure (value ∷ rest)

  -- The end of a row loop that is no row: the error is made before or after the rows are closed, as in
  -- the source.
  abbrev close_with : Option GoError → Exec (RowsEnv S) (List Value)
  close_with failure = do ignore close_rows; check failure; pure []

  abbrev is_some : Option GoError → Bool
  is_some none = false
  is_some (some e) = true

  abbrev step_failed : ℤ → Exec (RowsEnv S) (List Value)
  step_failed rc = do e ← state; close_with (result_error x rc e.env)

  abbrev step_interrupted : Bool → Exec (RowsEnv S) (List Value)
  step_interrupted fired = do
    e ← state
    if fired && is_some (context_err x e.rows.ctx e.lib)
        then (do ignore close_rows; e' ← state; check (context_err x e'.rows.ctx e'.lib); pure [])
        else step_failed sqlite_interrupt

  -- The values that Next writes to `dest`, of the given length.
  unfoldable pub next : ℕ → Exec (RowsEnv S) (List Value)
  next count = do
    e ← state
    if e.rows.rows_closed then fail eof else do
      rc ← in_stmt (on_handle x.step)
      e' ← state
      let fired = stop_watcher x (interrupt_watcher e.rows.ctx e.conn.db) e'.lib
      if rc ==ℤ sqlite_row
          then read_columns 0 count
          else if rc ==ℤ sqlite_done
          then (do ignore close_rows; fail eof)
          else if rc ==ℤ sqlite_interrupt
          then step_interrupted fired
          else step_failed rc
