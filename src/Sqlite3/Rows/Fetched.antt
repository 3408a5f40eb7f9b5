-- ===== src/Sqlite3/Rows/Fetched.antt =====
-- sqlite3.go: the rows that Next returns are those that SQLite yields.
use purego_gen.Prelude.{
  ℕ, zero, suc, ◌+◌, ◌≤◌, ◌<◌, ◌^◌, ◌≡◌, refl, ap, sym, subst, ◌⊎◌, true, false, List, [], ◌∷◌,
  ◌++◌, Option, none, some, get_elem?, length, map, replicate, arith,
}
use purego_gen.Prelude.Int.{pos, bits, to_int32}
use purego_gen.Prelude.Text.{Text}
use purego_gen.Go.{Value, eof}
use purego_gen.Go.Exec.{Outcome, ok, err, ◌>>=◌}
use purego_gen.Sqlite3.Codes.{
  sqlite_row, sqlite_done, sqlite_integer, sqlite_float, sqlite_text, sqlite_blob, sqlite_null,
}
use purego_gen.Sqlite3.Extern.{Extern, Handle}
use purego_gen.Sqlite3.TimeText.{looks_like_time_type, parse_sqlite_time}
use purego_gen.Sqlite3.State.{RowsEnv, in_stmt}
use purego_gen.Sqlite3.Bind.{on_handle, bind_result}
use purego_gen.Sqlite3.Stmt.{close_stmt, reset_for_reuse}
use purego_gen.Sqlite3.Rows.{text_value, close_rows, ignore, column_value, read_columns, next}

module _ {S : Type 0} (x : Extern S) where
  -- A text that the driver is to return as it is: the connection has no location, or the column is of no time
  -- type, or the text is no time.
  abbrev pub IsPlain : Option Text → Option Text → Text → Type 0
  IsPlain none decl t = Unit
  IsPlain (some loc) none t = ⊥
  IsPlain (some loc) (some decl) t =
      (looks_like_time_type decl ≡ false) ⊎ (parse_sqlite_time x t loc ≡ none)

  -- The value that a column of the current row has, by the type that SQLite gives for it.
  abbrev pub HasCell : Option Text → Option Text → Handle → ℕ → S → Value → Type 0
  HasCell loc decl h i s Value.nil = x.column_type h (pos i) s ≡ sqlite_null
  HasCell loc decl h i s (Value.int64 z) =
      (x.column_type h (pos i) s ≡ sqlite_integer) × (x.column_int64 h (pos i) s ≡ z)
  HasCell loc decl h i s (Value.float64 n) =
      (x.column_type h (pos i) s ≡ sqlite_float) × (x.column_double h (pos i) s ≡ n)
  HasCell loc decl h i s (Value.string t) =
      (x.column_type h (pos i) s ≡ sqlite_text)
      × (x.column_text h (pos i) s ≡ t)
      × IsPlain loc decl t
  HasCell loc decl h i s (Value.time t) =
      (zone : Text) × (name : Text) × (loc ≡ some zone)
      × (decl ≡ some name)
      × (looks_like_time_type name ≡ true)
      × (x.column_type h (pos i) s ≡ sqlite_text)
      × (parse_sqlite_time x (x.column_text h (pos i) s) zone ≡ some t)
  HasCell loc decl h i s (Value.bytes b) =
      (x.column_type h (pos i) s ≡ sqlite_blob) × (x.column_blob h (pos i) s ≡ b)
  HasCell loc decl h i s v = ⊥

  -- The cells of the current row from the column i on.
  abbrev pub HasRow : Option Text → List Text → Handle → ℕ → S → List Value → Type 0
  HasRow loc decls h i s [] = Unit
  HasRow loc decls h i s (v ∷ vs) =
      HasCell loc (get_elem? decls i) h i s v × HasRow loc decls h (i + 1) s vs

  -- The rows that a statement yields, one for each step, before the step that answers SQLITE_DONE.
  abbrev pub Yields : Option Text → List Text → Handle → ℕ → S → List (List Value) → Type 0
  Yields loc decls h columns s [] = (x.step h s).0 ≡ sqlite_done
  Yields loc decls h columns s (row ∷ rows) =
      ((x.step h s).0 ≡ sqlite_row)
      × (length row ≡ columns)
      × HasRow loc decls h 0 (x.step h s).1 row
      × Yields loc decls h columns (x.step h s).1 rows

  -- What so many calls of Next return, on a `dest` of so many columns.
  unfoldable pub fetched : ℕ → ℕ → RowsEnv S → List (Outcome (List Value))
  fetched columns zero v = []
  fetched columns (suc calls) v = (next x columns v).0 ∷ fetched columns calls (next x columns v).1

  small_column : (i : ℕ) → i < 2 ^ 31 → to_int32 (pos i) ≡ pos i
  unfolding bits
  small_column i h = ground arith

  plain_text :
      (loc decl : Option Text) (t : Text)
      → IsPlain loc decl t
      → text_value x t loc decl ≡ ok (Value.string t)
  plain_text none decl t h = refl
  plain_text (some loc) none t h = absurd h
  plain_text (some loc) (some decl) t h = ground arith

  column_value-HasCell :
      (i : ℕ) (v : RowsEnv S) (c : Value)
      → i < 2 ^ 31
      → HasCell v.conn.config.location (get_elem? v.rows.decl_types i) v.stmt.handle i v.lib c
      → column_value x i v ≡ ok c
  unfolding column_value
  column_value-HasCell i v Value.nil l h = ground (arith, small_column i l)
  column_value-HasCell i v (Value.int64 z) l h = ground (arith, small_column i l)
  column_value-HasCell i v (Value.float64 n) l h = ground (arith, small_column i l)
  column_value-HasCell i v (Value.string t) l h =
      ground (
        arith,
        small_column i l,
        plain_text v.conn.config.location (get_elem? v.rows.decl_types i) t,
      )
  column_value-HasCell i v (Value.time t) l h = ground (arith, small_column i l)
  column_value-HasCell i v (Value.bytes b) l h = ground (arith, small_column i l)
  column_value-HasCell i v _ l h = absurd h

  read_columns-HasRow :
      (i : ℕ) (v : RowsEnv S) (row : List Value)
      → i + length row ≤ 2 ^ 31
      → HasRow v.conn.config.location v.rows.decl_types v.stmt.handle i v.lib row
      → read_columns x i (length row) v ≡ (ok row, v)
  unfolding read_columns ◌>>=◌
  read_columns-HasRow i v [] l h = refl
  read_columns-HasRow i v (c ∷ row) l h = ground (
    arith,
    column_value-HasCell i v c (omega arith) h.0,
    read_columns-HasRow (i + 1) v row (omega arith) h.1,
  )

  close_quietly :
      (v : RowsEnv S)
      → v.rows.once ≡ false
      → ((ignore (close_rows x) v).0 ≡ ok tt)
        × ((ignore (close_rows x) v).1.rows.rows_closed ≡ true)
  unfolding ignore close_rows close_stmt reset_for_reuse in_stmt on_handle bind_result ◌>>=◌
  close_quietly v h = ground arith

  zero_plus : (n : ℕ) → 0 + n ≡ n
  zero_plus n = omega arith

  suc_plus : (m n : ℕ) → suc m + n ≡ suc (m + n)
  suc_plus m n = omega arith

  -- Next on rows that are closed.
  after_eof :
      (columns calls : ℕ) (v : RowsEnv S)
      → v.rows.rows_closed ≡ true
      → fetched columns calls v ≡ replicate calls (err eof)
  unfolding fetched next ◌>>=◌
  after_eof columns zero v h = refl
  after_eof columns (suc calls) v h = simp h (ap (λ l. err eof ∷ l) (after_eof columns calls v h))

  abbrev stepped : RowsEnv S → RowsEnv S
  stepped v = (in_stmt (on_handle x.step) v).1

  next-done :
      (columns : ℕ) (v : RowsEnv S)
      → v.rows.rows_closed ≡ false
      → v.rows.once ≡ false
      → (x.step v.stmt.handle v.lib).0 ≡ sqlite_done
      → ((next x columns v).0 ≡ err eof) × ((next x columns v).1.rows.rows_closed ≡ true)
  unfolding next in_stmt on_handle ◌>>=◌
  next-done columns v h o d = ground (arith, close_quietly (stepped v) o)

  next-row :
      (v : RowsEnv S) (row : List Value)
      → v.rows.rows_closed ≡ false
      → length row ≤ 2 ^ 31
      → (x.step v.stmt.handle v.lib).0 ≡ sqlite_row
      → HasRow v.conn.config.location v.rows.decl_types v.stmt.handle 0
          (x.step v.stmt.handle v.lib).1
          row
      → next x (length row) v ≡ (ok row, stepped v)
  unfolding next in_stmt on_handle ◌>>=◌
  next-row v row h l d k = ground (arith, read_columns-HasRow 0 (stepped v) row (omega arith) k)

  -- Next on open rows returns the rows that SQLite yields for their statement, all, in their order and each
  -- with the values of its columns, and then io.EOF, in this call and in every later one. A text of a column
  -- of a time type is returned as a time where the connection has a location and the text can be
  -- read, and else as it is. (A statement has at most 2^31 columns.)
  pub fetched-Yields :
      (columns : ℕ) (rows : List (List Value)) (calls : ℕ) (v : RowsEnv S)
      → columns ≤ 2 ^ 31
      → v.rows.rows_closed ≡ false
      → v.rows.once ≡ false
      → Yields v.conn.config.location v.rows.decl_types v.stmt.handle columns v.lib rows
      → fetched columns (length rows + suc calls) v ≡ map ok rows ++ replicate (suc calls) (err eof)
  unfolding fetched in_stmt on_handle
  fetched-Yields columns [] calls v l h o y =
      let (end, closed) = next-done columns v h o y in
      rw (zero_plus (suc calls), end)
        (ap (λ k. err eof ∷ k) (after_eof columns calls (next x columns v).1 closed))
  fetched-Yields columns (row ∷ rows) calls v l h o (d, width, cells, more) =
      let e =
        subst (λ n. next x n v ≡ (ok row, stepped v)) width
          (next-row v row h (subst (λ n. n ≤ 2 ^ 31) (sym width) l) d cells) in
      rw (suc_plus (length rows) (suc calls), e)
        (ap (λ k. ok row ∷ k) (fetched-Yields columns rows calls (stepped v) l h o more))
