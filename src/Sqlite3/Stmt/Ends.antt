-- ===== src/Sqlite3/Stmt/Ends.antt =====
-- sqlite3.go: the loop of execBound ends.
use purego_gen.Prelude.{ℕ, zero, suc, ◌<◌, ◌≢◌, inl, inr, Option, none, some, arith, Bool-cases}
use purego_gen.Prelude.Int.{◌==ℤ◌}
use purego_gen.Go.{Context, GoError}
use purego_gen.Go.Exec.{diverges, ◌>>=◌}
use purego_gen.Sqlite3.Codes.{sqlite_row}
use purego_gen.Sqlite3.Extern.{Extern, YieldsFinitely}
use purego_gen.Sqlite3.State.{StmtEnv}
use purego_gen.Sqlite3.Bind.{on_handle}
use purego_gen.Sqlite3.Bind.Total.{Ends}
use purego_gen.Sqlite3.Stmt.{fail_with, step_loop, exec_bound}

module _ {S : Type 0} {x : Extern S} {most : ℕ} (law : YieldsFinitely x most) where
  open law use {rows_left, step_row}

  fail_with-ends :
      {A : Type 0} (o : Option GoError) (e : StmtEnv S) → (fail_with {A = A} o e).0 ≢ diverges
  unfolding fail_with
  fail_with-ends none e h = cc
  fail_with-ends (some f) e h = cc

  -- With more fuel than rows the loop comes to its end.
  step_loop-ends :
      (fuel : ℕ) (ctx : Context) (w : Option ℕ) (e : StmtEnv S)
      → rows_left e.stmt.handle e.lib < fuel
      → (step_loop x fuel ctx w e).0 ≢ diverges
  unfolding step_loop on_handle fail_with ◌>>=◌
  step_loop-ends zero ctx w e h = elim h [ ]
  step_loop-ends (suc fuel) ctx w e h =
      elim (Bool-cases ((x.step e.stmt.handle e.lib).0 ==ℤ sqlite_row)) [
        | inl row ↦
            simp row (step_loop-ends fuel ctx w _ (omega (arith, step_row e.stmt.handle e.lib row)))
        | inr other ↦ simp other (ground arith)
      ]

  pub exec_bound-Ends : (fuel : ℕ) (ctx : Context) → most < fuel → Ends (exec_bound x fuel ctx)
  unfolding exec_bound ◌>>=◌
  exec_bound-Ends fuel ctx h = record {
    at = λ e. step_loop-ends fuel ctx _ e (omega (arith, law.bounded e.stmt.handle e.lib));
  }
