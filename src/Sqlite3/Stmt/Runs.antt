-- ===== src/Sqlite3/Stmt/Runs.antt =====
-- sqlite3.go: the loop of execBound as a run of the statement.
use purego_gen.Prelude.{
  ℕ, zero, suc, ◌<◌, ◌≡◌, refl, inl, inr, true, false, ◌⊎◌, Option, none, some, if◌then◌else◌,
  arith, Bool-cases, Option-cases,
}
use purego_gen.Prelude.Text.{Text}
use purego_gen.Prelude.Int.{ℤ, pos, negsuc, ◌==ℤ◌}
use purego_gen.Go.{Context, cancellable, GoError, context_error}
use purego_gen.Go.Exec.{Exec, Outcome, ok, err, state, gets, ◌>>=◌}
use purego_gen.Sqlite3.Codes.{sqlite_ok, sqlite_row, sqlite_done, sqlite_interrupt}
use purego_gen.Sqlite3.Extern.{Extern, Handle, YieldsFinitely}
use purego_gen.Sqlite3.Errors.{error_from_result, context_err}
use purego_gen.Sqlite3.State.{SqliteResult, StmtEnv}
use purego_gen.Sqlite3.Bind.{on_handle}
use purego_gen.Sqlite3.Stmt.{
  interrupt_watcher, stop_watcher, fail_with, done_result, interrupted_error, step_loop, exec_bound,
}

module _ {S : Type 0} (x : Extern S) where
  -- The steps of a statement from a state on: some rows, and then the code that ends the run, in the last state.
  pub data RunsTo (h : Handle) : S → ℕ → ℤ → S → Type 0 where
    stops :
        {s : S} → (x.step h s).0 ==ℤ sqlite_row ≡ false → RunsTo h s 0 (x.step h s).0 (x.step h s).1
    row :
        {s : S} {rows : ℕ} {rc : ℤ} {s' : S}
        → (x.step h s).0 ==ℤ sqlite_row ≡ true
        → RunsTo h (x.step h s).1 rows rc s'
        → RunsTo h s (suc rows) rc s'

  -- Why the caller's context is done, where its goroutine has interrupted the database.
  abbrev pub reported : Context → Handle → S → Option Text
  reported (cancellable c) (some db) s = if x.fired c s then x.cancelled c s else none
  reported ctx db s = none

  -- What a caller is to get for the code that ends a run.
  pub data Answers (ctx : Context) (db : Handle) (s : S)
      : ℤ → Outcome (Option SqliteResult) → Type 0 where
    finished : Answers ctx db s sqlite_done (
        ok (
          some (record {
            last_insert_id = x.last_insert_rowid db s;
            rows_affected = x.changes64 db s;
          })))
    interrupted :
        {why : Text}
        → reported ctx db s ≡ some why
        → Answers ctx db s sqlite_interrupt (err (context_error why))
    failed :
        {rc : ℤ} {e : GoError}
        → rc ==ℤ sqlite_done ≡ false
        → (rc ==ℤ sqlite_interrupt ≡ false) ⊎ (reported ctx db s ≡ none)
        → error_from_result x db rc s ≡ some e
        → Answers ctx db s rc (err e)
    unknown : Answers ctx db s sqlite_ok (ok none)

  -- The end of the loop, for a code that is not SQLITE_ROW.
  abbrev stopped : Context → Option ℕ → ℤ → Exec (StmtEnv S) (Option SqliteResult)
  stopped ctx watched rc =
      if rc ==ℤ sqlite_done
      then gets (done_result x)
      else if rc ==ℤ sqlite_interrupt
      then (do e ← state; fail_with (interrupted_error x ctx watched rc e))
      else do e ← state; fail_with (error_from_result x e.conn.db rc e.lib)

  stopped_state :
      (ctx : Context) (w : Option ℕ) (rc : ℤ) (v : StmtEnv S) → (stopped ctx w rc v).1 ≡ v
  unfolding fail_with ◌>>=◌
  stopped_state ctx w rc v = ground arith

  is_code : (rc : ℤ) (n : ℕ) → rc ==ℤ pos n ≡ true → rc ≡ pos n
  is_code (pos m) n h = ground arith
  is_code (negsuc m) n h = ground arith

  no_error : (db : Handle) (rc : ℤ) (s : S) → error_from_result x db rc s ≡ none → rc ≡ sqlite_ok
  unfolding error_from_result
  no_error db rc s h = ground (arith, is_code rc 0)

  error-Answers :
      (ctx : Context) (db : Handle) (rc : ℤ) (v : StmtEnv S) (o : Option GoError)
      → rc ==ℤ sqlite_done ≡ false
      → (rc ==ℤ sqlite_interrupt ≡ false) ⊎ (reported ctx db v.lib ≡ none)
      → error_from_result x db rc v.lib ≡ o
      → Answers ctx db v.lib rc (fail_with {A = SqliteResult} o v).0
  unfolding fail_with
  error-Answers ctx db rc v (some e) d n h = failed d n h
  error-Answers ctx db rc v none d n h = rw (no_error db rc v.lib h) unknown

  interrupted_error-reported :
      (ctx : Context) (v : StmtEnv S) (why : Text)
      → reported ctx v.conn.db v.lib ≡ some why
      → interrupted_error x ctx (interrupt_watcher ctx v.conn.db) sqlite_interrupt v
        ≡ some (context_error why)
  unfolding interrupt_watcher stop_watcher context_err
  interrupted_error-reported ctx v why h = ground arith

  interrupted_error-quiet :
      (ctx : Context) (v : StmtEnv S)
      → reported ctx v.conn.db v.lib ≡ none
      → interrupted_error x ctx (interrupt_watcher ctx v.conn.db) sqlite_interrupt v
        ≡ error_from_result x v.conn.db sqlite_interrupt v.lib
  unfolding interrupt_watcher stop_watcher context_err
  interrupted_error-quiet ctx v h = ground arith

  interrupted-Answers :
      (ctx : Context) (v : StmtEnv S)
      → Answers ctx v.conn.db v.lib sqlite_interrupt
          (fail_with {A = SqliteResult}
            (interrupted_error x ctx (interrupt_watcher ctx v.conn.db) sqlite_interrupt v)
            v).0
  unfolding fail_with
  interrupted-Answers ctx v = elim (Option-cases (reported ctx v.conn.db v.lib)) [
    | inl quiet ↦
        rw (interrupted_error-quiet ctx v quiet)
          (error-Answers ctx v.conn.db sqlite_interrupt v _ refl (inr quiet) refl)
    | inr (why, told) ↦ rw (interrupted_error-reported ctx v why told) (interrupted told)
  ]

  stopped-Answers :
      (ctx : Context) (rc : ℤ) (v : StmtEnv S)
      → Answers ctx v.conn.db v.lib rc (stopped ctx (interrupt_watcher ctx v.conn.db) rc v).0
  unfolding ◌>>=◌
  stopped-Answers ctx rc v = elim (Bool-cases (rc ==ℤ sqlite_done)) [
    | inl done ↦ rw (is_code rc 101 done) finished
    | inr more ↦ rw more (elim (Bool-cases (rc ==ℤ sqlite_interrupt)) [
      | inl early ↦ rw (is_code rc 9 early) (interrupted-Answers ctx v)
      | inr plain ↦ rw plain (error-Answers ctx v.conn.db rc v _ more (inl plain) refl)
    ])
  ]

module _ {S : Type 0} {x : Extern S} {most : ℕ} (law : YieldsFinitely x most) where
  open law use {rows_left, step_row}

  step_loop-RunsTo :
      (fuel : ℕ) (ctx : Context) (v : StmtEnv S)
      → rows_left v.stmt.handle v.lib < fuel
      → (rows : ℕ) × (rc : ℤ) × (s' : S) × RunsTo x v.stmt.handle v.lib rows rc s'
        × Answers x ctx v.conn.db s' rc (step_loop x fuel ctx (interrupt_watcher ctx v.conn.db) v).0
        × ((step_loop x fuel ctx (interrupt_watcher ctx v.conn.db) v).1
            ≡ record v { env = record v.env { lib = s' } })
  unfolding step_loop on_handle ◌>>=◌
  step_loop-RunsTo zero ctx v h = elim h [ ]
  step_loop-RunsTo (suc fuel) ctx v h =
      elim (Bool-cases ((x.step v.stmt.handle v.lib).0 ==ℤ sqlite_row)) [
        | inl is_row ↦
            let (rows, rc, s', run, answer, after) =
              step_loop-RunsTo fuel ctx (on_handle x.step v).1
                (omega (arith, step_row v.stmt.handle v.lib is_row)) in
            (suc rows, rc, s', row is_row run, simp is_row answer, simp is_row after)
        | inr other ↦ (
          0,
          (x.step v.stmt.handle v.lib).0,
          (x.step v.stmt.handle v.lib).1,
          stops other,
          rw other (stopped-Answers x ctx (x.step v.stmt.handle v.lib).0 (on_handle x.step v).1),
          rw other (
              stopped_state x ctx (interrupt_watcher ctx v.conn.db) (x.step v.stmt.handle v.lib).0
                (on_handle x.step v).1),
        )
      ]

  -- With more fuel than a statement has rows, execBound runs the statement to the end of its rows. On
  -- SQLITE_DONE it returns the connection's counters as they are then. On SQLITE_INTERRUPT it returns the
  -- error of the caller's context, where the goroutine of that context has interrupted the database and the
  -- context is done, and on every other code the error for the code. (SQLITE_OK, which
  -- sqlite3_step does not return, would give neither a result nor an error.)
  pub exec_bound-RunsTo :
      (fuel : ℕ) (ctx : Context) (v : StmtEnv S)
      → most < fuel
      → (rows : ℕ) × (rc : ℤ) × (s' : S) × RunsTo x v.stmt.handle v.lib rows rc s'
        × Answers x ctx v.conn.db s' rc (exec_bound x fuel ctx v).0
        × ((exec_bound x fuel ctx v).1 ≡ record v { env = record v.env { lib = s' } })
  unfolding exec_bound ◌>>=◌
  exec_bound-RunsTo fuel ctx v h =
      step_loop-RunsTo fuel ctx v (omega (arith, law.bounded v.stmt.handle v.lib, h))
