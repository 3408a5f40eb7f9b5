-- ===== src/Duckdb/Rows/Order.antt =====
-- duckdb.go: the rows that Next returns, in their order.
use purego_gen.Prelude.{
  ℕ, zero, suc, ◌+◌, ◌≤◌, ◌<◌, ◌≡◌, refl, ap, false, List, [], ◌∷◌, some, arith,
}
use purego_gen.Go.{Value}
use purego_gen.Go.Exec.{Outcome, ok}
use purego_gen.Duckdb.Extern.{Extern}
use purego_gen.Duckdb.State.{RowsEnv}
use purego_gen.Duckdb.Rows.{read_row, after_row, next_loop, next}

module _ {S : Type 0} (x : Extern S) where
  -- What so many calls of Next return.
  unfoldable pub returned : ℕ → RowsEnv S → List (Outcome (List Value))
  returned zero v = []
  returned (suc calls) v = (next x v).0 ∷ returned calls (next x v).1

  -- The rows of a chunk from the row `row` on, as they are read from its memory.
  unfoldable pub rows_from : List ℕ → ℕ → ℕ → S → ℕ → ℕ → List (Outcome (List Value))
  rows_from types columns c s row zero = []
  rows_from types columns c s row (suc count) =
      read_row x types c row 0 columns s ∷ rows_from types columns c s (row + 1) count

  -- Open rows at the row `row` of the chunk `c`.
  pub record IsAt (c row size : ℕ) (types : List ℕ) (columns : ℕ) (s : S) (v : RowsEnv S)
      : Type 0 where
    pub open_rows : v.rows.rows_closed ≡ false
    pub at_chunk : v.rows.chunk ≡ some c
    pub at_row : v.rows.chunk_row ≡ row
    pub of_size : v.rows.chunk_size ≡ size
    pub of_types : v.rows.types ≡ types
    pub of_columns : v.rows.column_count ≡ columns
    pub of_memory : v.lib ≡ s

  -- A row can be read: no column is of a type without number.
  abbrev pub IsRead : Outcome (List Value) → Type 0
  IsRead (ok vs) = Unit {0}
  IsRead r = ⊥

  after_row-IsAt :
      (c row size : ℕ) (types : List ℕ) (columns : ℕ) (s : S) (v : RowsEnv S)
      (r : Outcome (List Value))
      → IsRead r
      → IsAt c row size types columns s v
      → ((after_row x r v).0 ≡ r) × IsAt c (row + 1) size types columns s (after_row x r v).1
  after_row-IsAt c row size types columns s v (ok vs) k h = (
    refl,
    record {
      open_rows = h.open_rows;
      at_chunk = h.at_chunk;
      at_row = ap (λ n. n + 1) h.at_row;
      of_size = h.of_size;
      of_types = h.of_types;
      of_columns = h.of_columns;
      of_memory = h.of_memory;
    },
  )
  after_row-IsAt c row size types columns s v r k h = absurd k

  next-after_row :
      (c row size : ℕ) (types : List ℕ) (columns : ℕ) (s : S) (v : RowsEnv S)
      → row < size
      → IsAt c row size types columns s v
      → next x v ≡ after_row x (read_row x types c row 0 columns s) v
  unfolding next next_loop
  next-after_row c row size types columns s v l h =
      ground
        (arith, h.open_rows, h.at_chunk, h.at_row, h.of_size, h.of_types, h.of_columns, h.of_memory)

  -- While the chunk has rows, the calls of Next return them one after the other, each with the values that
  -- are read from the memory of the chunk, and none is skipped or repeated.
  pub returned-rows_from :
      (c row size : ℕ) (types : List ℕ) (columns : ℕ) (s : S) (v : RowsEnv S) (calls : ℕ)
      → row + calls ≤ size
      → ((j : ℕ) → j < size → IsRead (read_row x types c j 0 columns s))
      → IsAt c row size types columns s v
      → returned calls v ≡ rows_from types columns c s row calls
  unfolding returned rows_from
  returned-rows_from c row size types columns s v zero l k h = refl
  returned-rows_from c row size types columns s v (suc calls) l k h =
      let step =
        after_row-IsAt c row size types columns s v (read_row x types c row 0 columns s)
          (k row (omega arith)) h in
      rw (next-after_row c row size types columns s v (omega arith) h, step.0)
        (ap (λ rest. read_row x types c row 0 columns s ∷ rest)
          (returned-rows_from c (row + 1) size types columns s _ calls (omega arith) k step.1))
