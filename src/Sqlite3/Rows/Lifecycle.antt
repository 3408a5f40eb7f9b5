-- ===== src/Sqlite3/Rows/Lifecycle.antt =====
-- sqlite3.go: the rows of a query from QueryContext over calls of Next to Close, and the prepared
-- statement that they hold.
use purego_gen.Prelude.{
  ℕ, zero, suc, ◌+◌, ◌≡◌, refl, ◌⊎◌, inl, inr, true, false, List, [], ◌∷◌, arith,
}
use purego_gen.Go.Exec.{Exec, Outcome, ok, err, panics, diverges, ◌>>=◌}
use purego_gen.Sqlite3.Extern.{Extern, KeepsStmts, added}
use purego_gen.Sqlite3.State.{Stmt, Rows, Env, StmtEnv, RowsEnv, in_stmt}
use purego_gen.Sqlite3.Bind.{on_handle}
use purego_gen.Sqlite3.Conn.Leaks.{close_stmt-live, dropped-added}
use purego_gen.Sqlite3.Rows.{close_rows, read_columns, ignore, next}

-- Any number of calls of Next, each on a `dest` of some length, and then Close.
unfoldable pub drain : {S : Type 0} → Extern S → List ℕ → RowsEnv S → RowsEnv S
drain x [] v = (close_rows x v).1
drain x (n ∷ ns) v = drain x ns (next x n v).1

-- The rows that QueryContext returns, with their statement and the connection.
abbrev pub rows_env : {S : Type 0} → Env S → Rows × Stmt → RowsEnv S
rows_env e (r, st) = record { stmt_env = record { env = e; stmt = st }; rows = r }

module _ {S : Type 0} (live : S → List ℕ) where
  -- Rows of a statement that only they use, over the prepared statements `l` of everybody else: either
  -- open, with their statement prepared, or closed, with it finalized.
  pub record IsOpen (l : List ℕ) (v : RowsEnv S) : Type 0 where
    pub not_once : v.rows.once ≡ false
    pub not_closed : v.rows.rows_closed ≡ false
    pub open_stmt : v.stmt.stmt_closed ≡ false
    pub owned : v.stmt.ephemeral ≡ true
    pub held : live v.lib ≡ added v.stmt.handle l

  pub record IsClosed (l : List ℕ) (v : RowsEnv S) : Type 0 where
    pub once : v.rows.once ≡ true
    pub closed : v.rows.rows_closed ≡ true
    pub released : live v.lib ≡ l

  abbrev pub Owns : List ℕ → RowsEnv S → Type 0
  Owns l v = IsOpen l v ⊎ IsClosed l v

  -- What QueryContext gives: open rows of a statement that only they use; after an error nothing.
  -- (A column count below 0 panics.)
  abbrev pub Opens : List ℕ → Outcome (Rows × Stmt) → Env S → Type 0
  Opens l (ok r) e = IsOpen l (rows_env e r)
  Opens l (err f) e = live e.lib ≡ l
  Opens l panics e = Unit {0}
  Opens l diverges e = ⊥

  -- A statement as prepareEphemeral leaves it.
  pub record IsFresh (l : List ℕ) (v : StmtEnv S) : Type 0 where
    pub fresh_open : v.stmt.stmt_closed ≡ false
    pub fresh_owned : v.stmt.ephemeral ≡ true
    pub fresh_held : live v.lib ≡ added v.stmt.handle l

  abbrev pub OpensStmt : List ℕ → Outcome Rows → StmtEnv S → Type 0
  OpensStmt l (ok r) v = IsOpen l (record { stmt_env = v; rows = r })
  OpensStmt l (err f) v = live v.lib ≡ l
  OpensStmt l panics v = Unit {0}
  OpensStmt l diverges v = ⊥

module _ {S : Type 0} {x : Extern S} {live : S → List ℕ} (law : KeepsStmts x live) where
  close_open : (l : List ℕ) (v : RowsEnv S) → IsOpen live l v → IsClosed live l (close_rows x v).1
  unfolding close_rows in_stmt ◌>>=◌
  close_open l v h =
      ground
        (arith, close_stmt-live law v.stmt_env h.open_stmt, h.held, dropped-added v.stmt.handle l)

  pub close_rows-IsClosed :
      (l : List ℕ) (v : RowsEnv S) → Owns live l v → IsClosed live l (close_rows x v).1
  close_rows-IsClosed l v (inl h) = close_open l v h
  close_rows-IsClosed l v (inr h) = unfold close_rows ◌>>=◌ in ground arith

  ignore-state : {R A : Type 0} (m : Exec R A) (v : R) → (ignore m v).1 ≡ (m v).1
  unfolding ignore
  ignore-state m v = ground arith

  read_columns-state : (i n : ℕ) (v : RowsEnv S) → (read_columns x i n v).1 ≡ v
  unfolding read_columns ◌>>=◌
  read_columns-state i zero v = refl
  read_columns-state i (suc n) v = ground (arith, read_columns-state (i + 1) n v)

  -- The step of a Next changes nothing that the invariant speaks of.
  step-Owns :
      (l : List ℕ) (v : RowsEnv S)
      → IsOpen live l v
      → IsOpen live l (in_stmt (on_handle x.step) v).1
  unfolding in_stmt on_handle
  step-Owns l v h = ground (arith, law.silent.step_view v.stmt.handle v.lib)

  abbrev stepped : RowsEnv S → RowsEnv S
  stepped v = (in_stmt (on_handle x.step) v).1

  next-state :
      (n : ℕ) (v : RowsEnv S)
      → v.rows.rows_closed ≡ false
      → ((next x n v).1 ≡ stepped v) ⊎ ((next x n v).1 ≡ (close_rows x (stepped v)).1)
  unfolding next in_stmt on_handle ◌>>=◌
  next-state n v h =
      ground (arith, ignore-state (close_rows x) (stepped v), read_columns-state 0 n (stepped v))

  pub next-Owns : (l : List ℕ) (n : ℕ) (v : RowsEnv S) → Owns live l v → Owns live l (next x n v).1
  next-Owns l n v (inl h) = elim (next-state n v h.not_closed) [
    | inl e ↦ rw e (inl (step-Owns l v h))
    | inr e ↦ rw e (inr (close_open l (stepped v) (step-Owns l v h)))
  ]
  next-Owns l n v (inr h) = unfold next ◌>>=◌ in simp h.closed (inr h)

  pub drain-IsClosed :
      (l ns : List ℕ) (v : RowsEnv S) → Owns live l v → IsClosed live l (drain x ns v)
  unfolding drain
  drain-IsClosed l [] v h = close_rows-IsClosed l v h
  drain-IsClosed l (n ∷ ns) v h = drain-IsClosed l ns (next x n v).1 (next-Owns l n v h)
