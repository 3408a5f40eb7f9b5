-- ===== src/Sqlite3/Bind/Binds.antt =====
-- sqlite3.go: what bindValue binds for one argument.
use purego_gen.Prelude.Text.{Text}
use purego_gen.Prelude.{
  [], ◌∷◌, none, some, ℕ, zero, suc, ◌==◌, ◌≡◌, refl, sym, ap, subst, ◌∙◌, true, false,
  if◌then◌else◌, arith,
}
use purego_gen.Prelude.Int.{ℤ, pos, ◌==ℤ◌}
use purego_gen.Go.{Value, nil, int64, float64, bool, string, bytes, time, NamedValue}
use purego_gen.Go.Exec.{Exec, Outcome, ok, err, panics, diverges, lift, continue, ◌>>=◌}
use purego_gen.Sqlite3.Codes.{sqlite_ok}
use purego_gen.Sqlite3.Errors.{error_from_result}
use purego_gen.Sqlite3.Extern.{
  Extern, Binding, c_text, passed, bind_null, bind_int64, bind_double, bind_text, bind_blob,
}
use purego_gen.Sqlite3.State.{StmtEnv}
use purego_gen.Sqlite3.TimeText.{format_sqlite_time}
use purego_gen.Sqlite3.Values.{normalize_value}
use purego_gen.Sqlite3.Bind.{on_handle, bind_result, resolve_index, bind_value, bind_arg}
use purego_gen.Sqlite3.Bind.Total.{is_driver_value, IsNormal, normalize_value-IsNormal}
use purego_gen.Sqlite3.Bind.Normal.{bind_value-normalize_value}

-- A text up to its first zero byte.
abbrev pub IsUpToNul : Text → Text → Type 0
IsUpToNul [] s = s ≡ []
IsUpToNul (zero ∷ t) s = s ≡ []
IsUpToNul (suc n ∷ t) [] = ⊥
IsUpToNul (suc n ∷ t) (b ∷ s) = (b ≡ suc n) × IsUpToNul t s

abbrev pub HasNoNul : Text → Type 0
HasNoNul [] = Unit
HasNoNul (zero ∷ t) = ⊥
HasNoNul (suc n ∷ t) = HasNoNul t

-- What SQLite stores for a driver value: a text up to its first zero byte, and NULL for bytes without any.
abbrev pub HasBinding : Value → Binding → Type 0
HasBinding nil b = b ≡ bind_null
HasBinding (int64 z) b = b ≡ bind_int64 z
HasBinding (float64 n) b = b ≡ bind_double n
HasBinding (bool v) b = b ≡ bind_int64 (if v then pos 1 else pos 0)
HasBinding (string t) b = (s : Text) × IsUpToNul t s × (b ≡ bind_text s)
HasBinding (bytes none) b = b ≡ bind_null
HasBinding (bytes (some [])) b = b ≡ bind_null
HasBinding (bytes (some (c ∷ t))) b = b ≡ bind_blob (some (c ∷ t))
HasBinding (time t) b = (s : Text) × IsUpToNul (format_sqlite_time t) s × (b ≡ bind_text s)
HasBinding v b = ⊥

-- sqlite3_bind_blob with a NULL pointer is sqlite3_bind_null.
abbrev pub stored : Binding → Binding
stored (bind_blob none) = bind_null
stored b = b

-- The argument of sqlite3_bind_text is a C string.
abbrev pub IsCall : Binding → Type 0
IsCall (bind_text t) = HasNoNul t
IsCall b = Unit

nonzero : (n : ℕ) → suc n == 0 ≡ false
nonzero n = ground arith

c_text-IsUpToNul : (t : Text) → IsUpToNul t (c_text t)
unfolding c_text
c_text-IsUpToNul [] = refl
c_text-IsUpToNul (zero ∷ t) = refl
c_text-IsUpToNul (suc n ∷ t) = rw (nonzero n) (refl, c_text-IsUpToNul t)

pub c_text-eq : (t : Text) → HasNoNul t → c_text t ≡ t
unfolding c_text
c_text-eq [] h = refl
c_text-eq (zero ∷ t) h = absurd h
c_text-eq (suc n ∷ t) h = rw (nonzero n) (ap (λ s. suc n ∷ s) (c_text-eq t h))

c_text-HasNoNul : (t : Text) → HasNoNul (c_text t)
unfolding c_text
c_text-HasNoNul [] = tt
c_text-HasNoNul (zero ∷ t) = tt
c_text-HasNoNul (suc n ∷ t) = rw (nonzero n) (c_text-HasNoNul t)

pub continue-ok :
    {S A B : Type 0} (r : Outcome A) (f : A → Exec S B) (s : S) (b : B)
    → (continue r f s).0 ≡ ok b
    → (a : A) × (r ≡ ok a) × ((f a s).0 ≡ ok b)
continue-ok (ok a) f s b h = (a, refl, h)
continue-ok (err e) f s b h = ground arith
continue-ok panics f s b h = ground arith
continue-ok diverges f s b h = ground arith

module _ {S : Type 0} (x : Extern S) where
  abbrev pub bound : ℤ → Binding → StmtEnv S → StmtEnv S
  bound i b e = record e { env = record e.env { lib = (x.bind_value e.stmt.handle i b e.lib).1 } }

  -- A binding that has succeeded.
  abbrev pub Binds : ℤ → Value → StmtEnv S → StmtEnv S → Type 0
  Binds i v e e' =
      (b : Binding) × HasBinding v (stored b)
      × IsCall b
      × ((x.bind_value e.stmt.handle i b e.lib).0 ==ℤ sqlite_ok ≡ true)
      × (e' ≡ bound i b e)

  driver-Binds :
      (i : ℤ) (v : Value) (e : StmtEnv S)
      → is_driver_value v ≡ true
      → (bind_value x 1 i v e).0 ≡ ok tt
      → Binds i v e (bind_value x 1 i v e).1
  unfolding passed bind_value on_handle bind_result error_from_result ◌>>=◌
  driver-Binds i nil e d h = (bind_null, refl, tt, ground arith, ground arith)
  driver-Binds i (int64 z) e d h = (bind_int64 z, refl, tt, ground arith, ground arith)
  driver-Binds i (float64 n) e d h = (bind_double n, refl, tt, ground arith, ground arith)
  driver-Binds i (bool true) e d h = (bind_int64 (pos 1), refl, tt, ground arith, ground arith)
  driver-Binds i (bool false) e d h = (bind_int64 (pos 0), refl, tt, ground arith, ground arith)
  driver-Binds i (string t) e d h = (
    bind_text (c_text t),
    (c_text t, c_text-IsUpToNul t, refl),
    c_text-HasNoNul t,
    ground arith,
    ground arith,
  )
  driver-Binds i (bytes none) e d h = (bind_blob none, refl, tt, ground arith, ground arith)
  driver-Binds i (bytes (some [])) e d h = (bind_blob none, refl, tt, ground arith, ground arith)
  driver-Binds i (bytes (some (c ∷ t))) e d h =
      (bind_blob (some (c ∷ t)), refl, tt, ground arith, ground arith)
  driver-Binds i (time t) e d h =
      let s = format_sqlite_time t in
      (
        bind_text (c_text s),
        (c_text s, c_text-IsUpToNul s, refl),
        c_text-HasNoNul s,
        ground arith,
        ground arith,
      )
  driver-Binds i _ e d h = ground arith

  normalized-Binds :
      (i : ℤ) (r : Outcome Value) (e : StmtEnv S)
      → IsNormal r
      → (continue r (bind_value x 1 i) e).0 ≡ ok tt
      → (v : Value) × (r ≡ ok v) × Binds i v e (continue r (bind_value x 1 i) e).1
  normalized-Binds i (ok v) e n h = (v, refl, driver-Binds i v e n h)
  normalized-Binds i (err f) e n h = ground arith
  normalized-Binds i panics e n h = absurd n
  normalized-Binds i diverges e n h = absurd n

  value-Binds :
      (i : ℤ) (a : Value) (e : StmtEnv S)
      → (bind_value x 2 i a e).0 ≡ ok tt
      → (v : Value) × (normalize_value a ≡ ok v) × Binds i v e (bind_value x 2 i a e).1
  unfolding ◌>>=◌ lift
  value-Binds i a e h =
      let same = bind_value-normalize_value x i a e in
      subst (λ r. (v : Value) × (normalize_value a ≡ ok v) × Binds i v e r.1) (sym same)
        (normalized-Binds i (normalize_value a) e (normalize_value-IsNormal a)
          (ap (λ r. r.0) (sym same) ∙ h))

  pub arg-Binds :
      (arg : NamedValue) (e : StmtEnv S)
      → (bind_arg x arg e).0 ≡ ok tt
      → (i : ℤ) × (v : Value) × (resolve_index x arg e ≡ ok i)
        × (normalize_value arg.value ≡ ok v)
        × Binds i v e (bind_arg x arg e).1
  unfolding bind_arg ◌>>=◌ lift
  arg-Binds arg e h =
      let (i, found, done) =
        continue-ok (resolve_index x arg e) (λ j. bind_value x 2 j arg.value) e tt h in
      let (v, normal, binds) = value-Binds i arg.value e done in
      (i, v, found, normal, rw found binds)
