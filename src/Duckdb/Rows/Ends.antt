-- ===== src/Duckdb/Rows/Ends.antt =====
-- duckdb.go: Next ends.
use purego_gen.Prelude.{
  ℕ, zero, suc, ◌+◌, ◌≡◌, refl, ◌≢◌, inl, inr, Bool, true, false, List, Option, none, some, arith,
  if◌then◌else◌, get_elem?, Bool-cases, ◌==◌,
}
use purego_gen.Go.{Value}
use purego_gen.Go.Exec.{Outcome, ok, err, panics, diverges}
use purego_gen.Sqlite3.Extern.{Handle}
use purego_gen.Duckdb.Extern.{Extern}
use purego_gen.Duckdb.Numbers.{decimal_text}
use purego_gen.Duckdb.State.{RowsEnv}
use purego_gen.Duckdb.Types.{ColumnType, column_type}
use purego_gen.Duckdb.Vectors.{is_null}
use purego_gen.Duckdb.Rows.{
  read_decimal, read_typed, read_value, read_row, cons_value, with_type, has_row, after_row,
  current_row, fetch, destroy_chunk, measured, after_fetch, next_loop, next,
}

module _ {S : Type 0} (x : Extern S) where
  read_decimal_ends :
      (t : ColumnType) (c col row : ℕ) (s : S) → read_decimal x t c col row s ≢ diverges
  unfolding read_decimal decimal_text
  read_decimal_ends t c col row s h = ground arith

  read_typed_ends :
      (t : ColumnType) (code c col row : ℕ) (s : S) → read_typed x t code c col row s ≢ diverges
  unfolding read_typed
  read_typed_ends ColumnType.decimal code c col row s h = read_decimal_ends _ c col row s h
  read_typed_ends _ code c col row s h = cc

  with_type_ends : (o : Option ℕ) (c col row : ℕ) (s : S) → with_type x o c col row s ≢ diverges
  with_type_ends none c col row s h = cc
  with_type_ends (some code) c col row s h = read_typed_ends (column_type code) code c col row s h

  if_ends :
      (b : Bool) (r q : Outcome Value)
      → r ≢ diverges
      → q ≢ diverges
      → (if b then r else q) ≢ diverges
  if_ends true r q h k = h
  if_ends false r q h k = k

  read_value_ends :
      (types : List ℕ) (c col row : ℕ) (s : S) → read_value x types c col row s ≢ diverges
  unfolding read_value
  read_value_ends types c col row s =
      if_ends (is_null x c col row s) _ _ (λ h. cc)
        (with_type_ends (get_elem? types col) c col row s)

  cons_value_ends :
      (v : Outcome Value) (r : Outcome (List Value))
      → v ≢ diverges
      → r ≢ diverges
      → cons_value x v r ≢ diverges
  cons_value_ends (ok v) (ok vs) h k e = cc
  cons_value_ends (ok v) r h k e = k e
  cons_value_ends (err f) r h k e = cc
  cons_value_ends panics r h k e = cc
  cons_value_ends diverges r h k e = h refl

  read_row_ends :
      (types : List ℕ) (c row col count : ℕ) (s : S) → read_row x types c row col count s ≢ diverges
  unfolding read_row
  read_row_ends types c row col zero s = λ h. cc
  read_row_ends types c row col (suc count) s =
      cons_value_ends _ _ (read_value_ends types c col row s)
        (read_row_ends types c row (col + 1) count s)

  after_row_ends :
      (r : Outcome (List Value)) (v : RowsEnv S) → r ≢ diverges → (after_row x r v).0 ≢ diverges
  after_row_ends (ok vs) v k h = cc
  after_row_ends (err e) v k h = cc
  after_row_ends panics v k h = cc
  after_row_ends diverges v k h = k refl

  after_fetch_ends :
      (h : Handle) (v : RowsEnv S) (again : ℕ → Outcome (List Value) × RowsEnv S)
      → ((c : ℕ) → h ≡ some c → x.chunk_size c v.lib == 0 ≡ false → (again c).0 ≢ diverges)
      → (after_fetch x h v again).0 ≢ diverges
  after_fetch_ends none v again k = λ h. cc
  after_fetch_ends (some c) v again k = elim (Bool-cases (x.chunk_size c v.lib == 0)) [
    | inl empty ↦ simp empty (λ h. cc)
    | inr full ↦ simp full (k c refl full)
  ]

  current_row_ends : (v : RowsEnv S) → current_row x v ≢ diverges
  current_row_ends v = read_row_ends v.rows.types _ v.rows.chunk_row 0 v.rows.column_count v.lib

  -- A round with a row at hand ends.
  row_round_ends :
      (fuel : ℕ) (v : RowsEnv S) → has_row x v.rows ≡ true → (next_loop x (suc fuel) v).0 ≢ diverges
  unfolding next_loop
  row_round_ends fuel v row = simp row (after_row_ends (current_row x v) v (current_row_ends v))

  two_rounds_end : (v : RowsEnv S) → (next_loop x 2 v).0 ≢ diverges
  unfolding next_loop
  two_rounds_end v = elim (Bool-cases (has_row x v.rows)) [
    | inl row ↦ simp row (after_row_ends (current_row x v) v (current_row_ends v))
    | inr none_left ↦ simp none_left (
        after_fetch_ends _ _ _ λ c e full.
          row_round_ends 0 (measured x c (fetch x (destroy_chunk x v))) (has_row_after c e full))
  ]
    where
      fetched : RowsEnv S
      fetched = fetch x (destroy_chunk x v)

      has_row_after :
          (c : ℕ)
          → fetched.rows.chunk ≡ some c
          → x.chunk_size c fetched.lib == 0 ≡ false
          → has_row x (measured x c fetched).rows ≡ true
      has_row_after c e full = simp e (ground arith)

  -- Next ends: two rounds of its loop are enough, because a chunk that is fetched and not empty has a row.
  pub next_ends : (v : RowsEnv S) → (next x v).0 ≢ diverges
  unfolding next
  next_ends v = elim (Bool-cases v.rows.rows_closed) [
    | inl closed ↦ simp closed (λ h. cc)
    | inr going ↦ simp going (two_rounds_end v)
  ]
