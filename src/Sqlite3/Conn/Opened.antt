-- ===== src/Sqlite3/Conn/Opened.antt =====
-- sqlite3.go: Connect returns, with the database open or closed again.
use purego_gen.Prelude.{ℕ, ◌<◌, ◌≡◌, refl, ◌≢◌, Bool, true, false, List, [], Option, none, some}
use purego_gen.Prelude.Int.{ℤ}
use purego_gen.Prelude.Text.{Text}
use purego_gen.Go.{background}
use purego_gen.Go.Exec.{Exec, Outcome, ok, err, panics, diverges, on_error, cleanup_then}
use purego_gen.Sqlite3.Extern.{Extern, KeepsDbs, YieldsFinitely}
use purego_gen.Sqlite3.State.{ConnectionConfig, Env, on_lib}
use purego_gen.Sqlite3.Bind.Total.{Ends, Ends-pure, Ends-state, Ends-check, Ends-bind, Ends-if}
use purego_gen.Sqlite3.Conn.{
  exec_transient, check_result, foreign_keys_pragma, text_pragma, apply_pragmas, call_open,
  set_busy_timeout, run_hook, after_open, connect_with, connect, fresh_conn, pragma,
}
use purego_gen.Sqlite3.Conn.Leaks.{exec_transient_ends}
use purego_gen.Sqlite3.Conn.Keeps.{KeepsConn}
use purego_gen.Sqlite3.Conn.Connect.{Connects, connect-Connects}

module _ {S : Type 0} {x : Extern S} {most : ℕ} (y : YieldsFinitely x most) (fuel : ℕ)
    (enough : most < fuel) where
  Ends-on_lib : {A : Type 0} (f : S → A × S) → Ends (on_lib f)
  unfolding on_lib
  Ends-on_lib f = record { at = λ e h. cc }

  Ends-call_open : Ends (call_open x)
  unfolding call_open
  Ends-call_open = record { at = λ e h. cc }

  cleanup_ends :
      (r : Outcome (Unit {0})) (d : Exec (Env S) (Unit {0})) (e : Env S)
      → r ≢ diverges
      → (cleanup_then r d e).0 ≢ diverges
  cleanup_ends (ok a) d e n h = cc
  cleanup_ends (err f) d e n h = cc
  cleanup_ends panics d e n h = cc
  cleanup_ends diverges d e n h = n refl

  Ends-on_error : (m d : Exec (Env S) (Unit {0})) → Ends m → Ends (on_error m d)
  unfolding on_error
  Ends-on_error m d k = record { at = λ e. cleanup_ends (m e).0 d (m e).1 (k.at e) }

  Ends-exec : (sql : Text) → Ends (exec_transient x fuel background sql [])
  Ends-exec sql = record { at = λ e. exec_transient_ends x y fuel background sql [] e enough }

  Ends-pragma : (sql : Text) → Ends (pragma x fuel sql)
  Ends-pragma sql = Ends-bind _ _ (Ends-exec sql) (λ r. Ends-pure tt)

  Ends-foreign_keys : (o : Option Bool) → Ends (foreign_keys_pragma x fuel o)
  unfolding foreign_keys_pragma
  Ends-foreign_keys none = Ends-pure tt
  Ends-foreign_keys (some true) = Ends-pragma _
  Ends-foreign_keys (some false) = Ends-pragma _

  Ends-text_pragma : (name value : Text) → Ends (text_pragma x fuel name value)
  unfolding text_pragma
  Ends-text_pragma name value = Ends-if _ _ _ (Ends-pure tt) (Ends-pragma _)

  Ends-check_result : (rc : ℤ) → Ends (check_result x rc)
  unfolding check_result
  Ends-check_result rc = search (Ends-bind, Ends-state, Ends-check)

  ruleset ends = (
    Ends-pure, Ends-state, Ends-check, Ends-bind, Ends-if, Ends-on_lib, Ends-on_error,
    Ends-call_open, Ends-check_result, Ends-foreign_keys, Ends-text_pragma,
  )

  Ends-apply_pragmas : Ends (apply_pragmas x fuel)
  unfolding apply_pragmas
  Ends-apply_pragmas = search ends depth 20

  Ends-set_busy_timeout : Ends (set_busy_timeout x)
  unfolding set_busy_timeout
  Ends-set_busy_timeout = search ends depth 20

  module _ (hook : Option (Exec (Env S) (Unit {0})))
      (hook_ends : (m : Exec (Env S) (Unit {0})) → hook ≡ some m → Ends m) where
    Ends-run_hook : (o : Option (Exec (Env S) (Unit {0}))) → hook ≡ o → Ends (run_hook x o)
    Ends-run_hook none e = Ends-pure tt
    Ends-run_hook (some m) e = hook_ends m e

    Ends-after_open : (rc : ℤ) → Ends (after_open x fuel hook rc)
    unfolding after_open
    Ends-after_open rc =
        Ends-bind _ _ (Ends-on_error (check_result x rc) _ (Ends-check_result rc)) λ a.
          Ends-bind _ _ (Ends-on_error (set_busy_timeout x) _ Ends-set_busy_timeout) λ b.
            Ends-bind _ _ (Ends-on_error (apply_pragmas x fuel) _ Ends-apply_pragmas)
              λ c. Ends-on_error (run_hook x hook) _ (Ends-run_hook hook refl)

    Ends-connect_with : Ends (connect_with x fuel hook)
    unfolding connect_with
    Ends-connect_with = search (ends, Ends-after_open) depth 20

-- Connect returns, given more fuel than a statement has rows and a hook that returns. It opens one
-- database, the connection's, and closes it again if an error follows: of the open itself, the busy
-- timeout, a pragma or the hook. The hook must leave the connection's database and the others as they
-- are. (Nothing is said of the database after a panic.)
pub connect_opens_one :
    {S : Type 0} {x : Extern S} {opened : S → List ℕ} {most : ℕ} (law : KeepsDbs x opened)
    (y : YieldsFinitely x most) (fuel : ℕ) (hook : Option (Exec (Env S) (Unit {0})))
    (config : ConnectionConfig) (s : S)
    → most < fuel
    → ((m : Exec (Env S) (Unit {0})) → hook ≡ some m → KeepsConn opened m)
    → ((m : Exec (Env S) (Unit {0})) → hook ≡ some m → Ends m)
    → ((connect x fuel hook config s).0 ≢ diverges)
      × Connects law (opened s) (connect x fuel hook config s).0 (connect x fuel hook config s).1
unfolding connect
connect_opens_one law y fuel hook config s h keeps ends = (
  (Ends-connect_with y fuel h hook ends).at (record { conn = fresh_conn config; lib = s }),
  connect-Connects law fuel hook config s keeps,
)
