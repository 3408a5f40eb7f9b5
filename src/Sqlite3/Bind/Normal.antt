-- ===== src/Sqlite3/Bind/Normal.antt =====
-- sqlite3.go: binding a value, and binding what normalizeValue makes of it.
use purego_gen.Prelude.{◌≡◌, refl, true, false, if◌then◌else◌}
use purego_gen.Prelude.Int.{ℤ}
use purego_gen.Go.{Value, nil, int64, float64, bool, string, bytes, time, GoError}
use purego_gen.Go.Exec.{Exec, Outcome, ok, err, panics, diverges, lift, fail, continue, ◌>>=◌}
use purego_gen.Sqlite3.Extern.{Extern}
use purego_gen.Sqlite3.State.{StmtEnv}
use purego_gen.Sqlite3.Values.{normalize_value}
use purego_gen.Sqlite3.Bind.{bind_value, same_dynamic}
use purego_gen.Sqlite3.Bind.Total.{is_driver_value, IsNormal, normalize_value-IsNormal}

same_dynamic_driver : (n v : Value) → is_driver_value n ≡ true → same_dynamic n v ≡ false
same_dynamic_driver nil v h = refl
same_dynamic_driver (int64 a) v h = refl
same_dynamic_driver (float64 a) v h = refl
same_dynamic_driver (bool a) v h = refl
same_dynamic_driver (string a) v h = refl
same_dynamic_driver (bytes a) v h = refl
same_dynamic_driver (time a) v h = refl
same_dynamic_driver _ v h = cc

module _ {S : Type 0} (x : Extern S) where
  normalized_other :
      (v : Value) (again : Value → Exec (StmtEnv S) (Unit {0})) (f : GoError) (r : Outcome Value)
      (e : StmtEnv S)
      → IsNormal r
      → continue r (λ n. if same_dynamic n v then fail f else again n) e ≡ continue r again e
  normalized_other v again f (ok n) e h = simp (same_dynamic_driver n v h)
  normalized_other v again f (err c) e h = refl
  normalized_other v again f panics e h = absurd h
  normalized_other v again f diverges e h = absurd h

  -- Binding a value is binding what normalizeValue makes of it: the error for a type that normalizing does
  -- not change is never returned.
  pub bind_value-normalize_value :
      (i : ℤ) (v : Value) (e : StmtEnv S)
      → bind_value x 2 i v e ≡ (lift (normalize_value v) >>= bind_value x 1 i) e
  unfolding bind_value ◌>>=◌ lift
  bind_value-normalize_value i nil e = unfold normalize_value in refl
  bind_value-normalize_value i (int64 a) e = unfold normalize_value in refl
  bind_value-normalize_value i (float64 a) e = unfold normalize_value in refl
  bind_value-normalize_value i (bool a) e = unfold normalize_value in refl
  bind_value-normalize_value i (string a) e = unfold normalize_value in refl
  bind_value-normalize_value i (bytes a) e = unfold normalize_value in refl
  bind_value-normalize_value i (time a) e = unfold normalize_value in refl
  bind_value-normalize_value i v e =
      normalized_other v (bind_value x 1 i) _ (normalize_value v) e (normalize_value-IsNormal v)
