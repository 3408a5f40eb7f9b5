-- ===== src/Sqlite3/Conn/Connect.antt =====
-- sqlite3.go: what Connect does with the database that it opens.
use purego_gen.Prelude.{ℕ, ◌≡◌, refl, ◌∙◌, sym, ap, subst, List, Option, none, some, arith}
use purego_gen.Prelude.Int.{ℤ}
use purego_gen.Go.{GoError}
use purego_gen.Go.Exec.{
  Exec, Outcome, ok, err, panics, diverges, ◌>>=◌, check, continue, on_error, cleanup_then,
}
use purego_gen.Sqlite3.Extern.{Extern, KeepsDbs, added}
use purego_gen.Sqlite3.State.{ConnectionConfig, Env, on_lib}
use purego_gen.Sqlite3.Conn.{
  force_close, call_open, connect_with, connect, fresh_conn, run_hook, after_open,
}
use purego_gen.Sqlite3.Conn.Leaks.{dropped-added}
use purego_gen.Sqlite3.Conn.Keeps.{
  KeepsConn, KeepsConn-pure, pragmas-KeepsConn, check-KeepsConn, timeout-KeepsConn,
}

module _ {S : Type 0} {x : Extern S} {opened : S → List ℕ} (law : KeepsDbs x opened) where
  -- The connection's database is open over the databases `l` of everybody else;
  abbrev Holds : List ℕ → Env S → Type 0
  Holds l e = opened e.lib ≡ added e.conn.db l

  -- so it is after a success, and after an error it is closed.
  abbrev pub Connects : List ℕ → Outcome (Unit {0}) → Env S → Type 0
  Connects l (ok a) e = Holds l e
  Connects l (err f) e = opened e.lib ≡ l
  Connects l panics e = Unit {0}
  Connects l diverges e = Unit {0}

  force_close-opened : (l : List ℕ) (e : Env S) → Holds l e → opened (force_close x e).1.lib ≡ l
  unfolding force_close on_lib ◌>>=◌
  force_close-opened l e h =
      ground (arith, law.close_opened e.conn.db e.lib, dropped-added e.conn.db l)

  guarded-Connects :
      (l : List ℕ) (m : Exec (Env S) (Unit {0})) (e : Env S)
      → KeepsConn opened m
      → Holds l e
      → let r = on_error m (force_close x) e in Connects l r.0 r.1
  unfolding on_error
  guarded-Connects l m e k h = by_outcome (m e).0 (m e).1 (k.same_view e) (k.same_conn e)
    where
      by_outcome :
          (r : Outcome (Unit {0})) (v : Env S)
          → opened v.lib ≡ opened e.lib
          → v.conn ≡ e.conn
          → let c = cleanup_then r (force_close x) v in Connects l c.0 c.1
      by_outcome (ok a) v p q = p ∙ h ∙ ap (λ c. added c.db l) (sym q)
      by_outcome (err f) v p q = force_close-opened l v (p ∙ h ∙ ap (λ c. added c.db l) (sym q))
      by_outcome panics v p q = tt
      by_outcome diverges v p q = tt

  then-Connects :
      (l : List ℕ) (r : Outcome (Unit {0})) (v : Env S) (f : Unit {0} → Exec (Env S) (Unit {0}))
      → Connects l r v
      → ((e : Env S) → Holds l e → Connects l (f tt e).0 (f tt e).1)
      → let c = continue r f v in Connects l c.0 c.1
  then-Connects l (ok a) v f h k = k v h
  then-Connects l (err c) v f h k = h
  then-Connects l panics v f h k = tt
  then-Connects l diverges v f h k = tt

  hook-KeepsConn :
      (hook : Option (Exec (Env S) (Unit {0})))
      → ((m : Exec (Env S) (Unit {0})) → hook ≡ some m → KeepsConn opened m)
      → KeepsConn opened (run_hook x hook)
  hook-KeepsConn none k = KeepsConn-pure tt
  hook-KeepsConn (some m) k = k m refl

  opened-Connects :
      (l : List ℕ) (fuel : ℕ) (hook : Option (Exec (Env S) (Unit {0})))
      → ((m : Exec (Env S) (Unit {0})) → hook ≡ some m → KeepsConn opened m)
      → (rc : ℤ) (e : Env S) → Holds l e
      → let r = after_open x fuel hook rc e in Connects l r.0 r.1
  unfolding after_open ◌>>=◌
  opened-Connects l fuel hook k rc e h =
      then-Connects l _ _ _ (guarded-Connects l _ e (check-KeepsConn law rc) h) λ e1 h1.
        then-Connects l _ _ _ (guarded-Connects l _ e1 (timeout-KeepsConn law) h1) λ e2 h2.
          then-Connects l _ _ _ (guarded-Connects l _ e2 (pragmas-KeepsConn law fuel) h2)
            λ e3 h3. guarded-Connects l _ e3 (hook-KeepsConn hook k) h3

  loaded-Connects :
      (fuel : ℕ) (hook : Option (Exec (Env S) (Unit {0})))
      → ((m : Exec (Env S) (Unit {0})) → hook ≡ some m → KeepsConn opened m)
      → (o : Option GoError) (e : Env S) → e.conn.db ≡ none
      → let r =
          continue (check o e).0 (λ _. call_open x >>= after_open x fuel hook) (check o e).1 in
        Connects (opened e.lib) r.0 r.1
  unfolding check call_open ◌>>=◌
  loaded-Connects fuel hook k none e h =
      opened-Connects (opened e.lib) fuel hook k _ _ (law.open_opened _ _ e.lib)
  loaded-Connects fuel hook k (some f) e h = refl

  -- What Connect does if it returns.
  pub connect-Connects :
      (fuel : ℕ) (hook : Option (Exec (Env S) (Unit {0}))) (config : ConnectionConfig) (s : S)
      → ((m : Exec (Env S) (Unit {0})) → hook ≡ some m → KeepsConn opened m)
      → let r = connect x fuel hook config s in Connects (opened s) r.0 r.1
  unfolding connect connect_with on_lib ◌>>=◌
  connect-Connects fuel hook config s k =
      subst (λ l. Connects l (connect x fuel hook config s).0 (connect x fuel hook config s).1)
        (law.load_opened s)
        (loaded-Connects fuel hook k (x.load s).0
          (record { conn = fresh_conn config; lib = (x.load s).1 }) refl)
