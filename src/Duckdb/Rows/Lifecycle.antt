-- ===== src/Duckdb/Rows/Lifecycle.antt =====
-- duckdb.go: the chunk, the result and the statement that rows hold, over calls of Next to Close.
use purego_gen.Prelude.{
  ℕ, zero, suc, ◌≡◌, refl, ◌∙◌, ◌⊎◌, inl, inr, ap, true, false, List, ◌∷◌, none, some, arith,
  Bool-cases, ◌==◌,
}
use purego_gen.Go.{Value}
use purego_gen.Go.Exec.{Outcome, ok, err, panics, diverges}
use purego_gen.Sqlite3.Extern.{Handle, added, dropped}
use purego_gen.Sqlite3.Conn.Leaks.{dropped-added}
use purego_gen.Duckdb.Extern.{Extern, KeepsChunks}
use purego_gen.Duckdb.State.{RowsEnv}
use purego_gen.Duckdb.Stmt.{close_stmt}
use purego_gen.Duckdb.Rows.{
  destroyed, destroy_chunk, close_rows, has_row, after_row, fetch, measured, after_fetch,
  current_row, next_loop, next,
}

-- Any number of calls of Next, and then Close.
unfoldable pub drain : {S : Type 0} → Extern S → ℕ → RowsEnv S → RowsEnv S
drain x zero v = close_rows x v
drain x (suc n) v = drain x n (next x v).1

module _ {S : Type 0} (chunks results stmts : S → List ℕ) where
  -- Open rows over the chunks `l`, the results `m` and the statements `n` of everybody else.
  pub record IsOpen (l m n : List ℕ) (v : RowsEnv S) : Type 0 where
    pub not_once : v.rows.once ≡ false
    pub not_closed : v.rows.rows_closed ≡ false
    pub open_stmt : v.stmt.stmt_closed ≡ false
    pub owned : v.stmt.ephemeral ≡ true
    pub held_chunk : chunks v.lib ≡ added v.rows.chunk l
    pub held_result : results v.lib ≡ v.rows.result ∷ m
    pub held_stmt : stmts v.lib ≡ added v.stmt.prepared n

  -- Closed rows hold nothing.
  pub record IsClosed (l m n : List ℕ) (v : RowsEnv S) : Type 0 where
    pub once : v.rows.once ≡ true
    pub closed : v.rows.rows_closed ≡ true
    pub no_chunk : chunks v.lib ≡ l
    pub no_result : results v.lib ≡ m
    pub no_stmt : stmts v.lib ≡ n

  abbrev pub Owns : List ℕ → List ℕ → List ℕ → RowsEnv S → Type 0
  Owns l m n v = IsOpen l m n v ⊎ IsClosed l m n v

module _ {S : Type 0} {x : Extern S} {chunks results stmts : S → List ℕ}
    (law : KeepsChunks x chunks results stmts) (l m n : List ℕ) where
  abbrev Open : RowsEnv S → Type 0
  Open v = IsOpen chunks results stmts l m n v

  destroyed_lem :
      (h : Handle) (s : S)
      → (chunks (destroyed x h s) ≡ dropped h (chunks s))
        × (results (destroyed x h s) ≡ results s)
        × (stmts (destroyed x h s) ≡ stmts s)
  destroyed_lem none s = (refl, refl, refl)
  destroyed_lem (some c) s =
      (law.destroy_chunk_chunks c s, law.destroy_chunk_results c s, law.destroy_chunk_stmts c s)

  destroy_chunk-Open : (v : RowsEnv S) → Open v → Open (destroy_chunk x v)
  unfolding destroy_chunk
  destroy_chunk-Open v h =
      let d = destroyed_lem v.rows.chunk v.lib in
      record {
        not_once = h.not_once;
        not_closed = h.not_closed;
        open_stmt = h.open_stmt;
        owned = h.owned;
        held_chunk = d.0 ∙ ap (dropped v.rows.chunk) h.held_chunk ∙ dropped-added v.rows.chunk l;
        held_result = d.1 ∙ h.held_result;
        held_stmt = d.2 ∙ h.held_stmt;
      }

  fetch-Open : (v : RowsEnv S) → v.rows.chunk ≡ none → Open v → Open (fetch x v)
  unfolding fetch
  fetch-Open v e h = record {
    not_once = h.not_once;
    not_closed = h.not_closed;
    open_stmt = h.open_stmt;
    owned = h.owned;
    held_chunk =
        law.fetch_chunks v.rows.result v.lib
        ∙ ap (added (x.fetch_chunk v.rows.result v.lib).0) (h.held_chunk ∙ ap (λ c. added c l) e);
    held_result = law.fetch_results v.rows.result v.lib ∙ h.held_result;
    held_stmt = law.fetch_stmts v.rows.result v.lib ∙ h.held_stmt;
  }

  close_rows-Open : (v : RowsEnv S) → Open v → IsClosed chunks results stmts l m n (close_rows x v)
  unfolding close_rows destroy_chunk close_stmt
  close_rows-Open v h =
      let d = destroyed_lem v.rows.chunk v.lib in
      let s = destroyed x v.rows.chunk v.lib in
      let t = x.destroy_result v.rows.result s in
      ground (
        arith,
        h.not_once,
        h.open_stmt,
        h.owned,
        d.0 ∙ ap (dropped v.rows.chunk) h.held_chunk ∙ dropped-added v.rows.chunk l,
        d.1 ∙ h.held_result,
        d.2 ∙ h.held_stmt,
        law.destroy_result_chunks v.rows.result s,
        law.destroy_result_results v.rows.result s,
        law.destroy_result_stmts v.rows.result s,
        law.destroy_prepare_chunks v.stmt.prepared t,
        law.destroy_prepare_results v.stmt.prepared t,
        law.destroy_prepare_stmts v.stmt.prepared t,
        dropped-added (some v.rows.result) m,
        dropped-added v.stmt.prepared n,
      )

  after_row-Open : (r : Outcome (List Value)) (v : RowsEnv S) → Open v → Open (after_row x r v).1
  after_row-Open (ok vs) v h = record {
    not_once = h.not_once;
    not_closed = h.not_closed;
    open_stmt = h.open_stmt;
    owned = h.owned;
    held_chunk = h.held_chunk;
    held_result = h.held_result;
    held_stmt = h.held_stmt;
  }
  after_row-Open (err e) v h = h
  after_row-Open panics v h = h
  after_row-Open diverges v h = h

  measured-Open : (c : ℕ) (v : RowsEnv S) → Open v → Open (measured x c v)
  measured-Open c v h = record {
    not_once = h.not_once;
    not_closed = h.not_closed;
    open_stmt = h.open_stmt;
    owned = h.owned;
    held_chunk = h.held_chunk;
    held_result = h.held_result;
    held_stmt = h.held_stmt;
  }

  after_fetch-Owns :
      (h : Handle) (v : RowsEnv S) (again : ℕ → Outcome (List Value) × RowsEnv S)
      → Open v
      → ((c : ℕ) → Owns chunks results stmts l m n (again c).1)
      → Owns chunks results stmts l m n (after_fetch x h v again).1
  after_fetch-Owns none v again k a = inr (close_rows-Open v k)
  after_fetch-Owns (some c) v again k a = elim (Bool-cases (x.chunk_size c v.lib == 0)) [
    | inl empty ↦ simp empty (inr (close_rows-Open _ (destroy_chunk-Open _ (measured-Open c v k))))
    | inr full ↦ simp full (a c)
  ]

  next_loop-Owns :
      (fuel : ℕ) (v : RowsEnv S) → Open v → Owns chunks results stmts l m n (next_loop x fuel v).1
  unfolding next_loop
  next_loop-Owns zero v h = inl h
  next_loop-Owns (suc fuel) v h =
      let f =
        fetch-Open (destroy_chunk x v) (unfold destroy_chunk in refl) (destroy_chunk-Open v h) in
      elim (Bool-cases (has_row x v.rows)) [
        | inl row ↦ simp row (inl (after_row-Open (current_row x v) v h))
        | inr none_left ↦
            simp none_left
              (after_fetch-Owns _ _ _ f λ c. next_loop-Owns fuel _ (measured-Open c _ f))
      ]

  pub next-Owns :
      (v : RowsEnv S)
      → Owns chunks results stmts l m n v
      → Owns chunks results stmts l m n (next x v).1
  unfolding next
  next-Owns v (inl h) = simp h.not_closed (next_loop-Owns 2 v h)
  next-Owns v (inr h) = simp h.closed (inr h)

  close_rows-Owns :
      (v : RowsEnv S)
      → Owns chunks results stmts l m n v
      → IsClosed chunks results stmts l m n (close_rows x v)
  close_rows-Owns v (inl h) = close_rows-Open v h
  close_rows-Owns v (inr h) = unfold close_rows in simp h.once h

  -- Rows that hold a chunk, the result and their own statement, or that are closed and hold nothing: after
  -- any calls of Next, and then Close, the rows are closed, and the library has no chunk, result or
  -- statement left of them.
  pub drain-IsClosed :
      (calls : ℕ) (v : RowsEnv S)
      → Owns chunks results stmts l m n v
      → IsClosed chunks results stmts l m n (drain x calls v)
  unfolding drain
  drain-IsClosed zero v h = close_rows-Owns v h
  drain-IsClosed (suc calls) v h = drain-IsClosed calls (next x v).1 (next-Owns v h)
