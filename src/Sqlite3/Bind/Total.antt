-- ===== src/Sqlite3/Bind/Total.antt =====
-- sqlite3.go: which values bindValue binds, and that binding ends.
use purego_gen.Prelude.{
  ◌≡◌, refl, ◌≢◌, Bool, true, false, List, [], ◌∷◌, Option, none, some, arith, if◌then◌else◌,
}
use purego_gen.Prelude.Int.{ℤ}
use purego_gen.Go.{
  Value, nil, int64, float64, bool, string, bytes, time, uint, uint64, valuer_ok, valuer_err, other,
  NamedValue, GoError,
}
use purego_gen.Go.Exec.{
  Exec, Outcome, ok, err, panics, diverges, pure, fail, lift, state, continue, ◌>>=◌, check,
}
use purego_gen.Sqlite3.Extern.{Extern, Handle}
use purego_gen.Sqlite3.State.{StmtEnv}
use purego_gen.Sqlite3.Values.{normalize_value}
use purego_gen.Sqlite3.Values.Valuers.{Dynamic, StandFor, AreNormalized, StandFor-AreNormalized}
use purego_gen.Sqlite3.Bind.{
  on_handle, bind_result, resolve_index, bind_value, bind_arg, bind_args, bind_named_values,
}

-- The values that database/sql calls driver values.
abbrev pub is_driver_value : Value → Bool
is_driver_value nil = true
is_driver_value (int64 v) = true
is_driver_value (float64 v) = true
is_driver_value (bool v) = true
is_driver_value (string v) = true
is_driver_value (bytes v) = true
is_driver_value (time v) = true
is_driver_value _ = false

-- A driver value, or an error.
abbrev pub IsNormal : Outcome Value → Type 0
IsNormal (ok v) = is_driver_value v ≡ true
IsNormal (err e) = Unit {0}
IsNormal panics = ⊥
IsNormal diverges = ⊥

pub normalize_value-IsNormal : (v : Value) → IsNormal (normalize_value v)
unfolding normalize_value
normalize_value-IsNormal (uint v) = ground arith
normalize_value-IsNormal (uint64 v) = ground arith
normalize_value-IsNormal (valuer_ok v) = normalize_value-IsNormal v
normalize_value-IsNormal (valuer_err e) = tt
normalize_value-IsNormal (other t) = tt
normalize_value-IsNormal _ = refl

pub normal_ends : (r : Outcome Value) → IsNormal r → r ≢ diverges
normal_ends (ok v) n h = cc
normal_ends (err e) n h = cc
normal_ends panics n h = n
normal_ends diverges n h = n

pub normal_value :
    (r : Outcome Value) (v : Value) → IsNormal r → r ≡ ok v → is_driver_value v ≡ true
normal_value (ok w) v n h = ground arith
normal_value (err e) v n h = cc
normal_value panics v n h = absurd n
normal_value diverges v n h = absurd n

-- The calls that end: with a value, an error or a panic.
pub record Ends {S A : Type 0} (m : Exec S A) : Type 0 where
  pub at : (s : S) → (m s).0 ≢ diverges

module _ {S : Type 0} where
  pub Ends-pure : {A : Type 0} (a : A) → Ends {S = S} (pure a)
  unfolding pure
  Ends-pure a = record { at = λ s h. cc }

  pub Ends-fail : {A : Type 0} (e : GoError) → Ends {S = S} (fail {A = A} e)
  unfolding fail
  Ends-fail e = record { at = λ s h. cc }

  pub Ends-state : Ends {S = S} state
  unfolding state
  Ends-state = record { at = λ s h. cc }

  pub Ends-check : (o : Option GoError) → Ends {S = S} (check o)
  unfolding check
  Ends-check none = record { at = λ s h. cc }
  Ends-check (some e) = record { at = λ s h. cc }

  pub Ends-continue :
      {A B : Type 0} (r : Outcome A) (f : A → Exec S B) (s : S)
      → r ≢ diverges
      → ((a : A) → r ≡ ok a → Ends (f a))
      → (continue r f s).0 ≢ diverges
  Ends-continue (ok a) f s n k = (k a refl).at s
  Ends-continue (err e) f s n k = λ h. cc
  Ends-continue panics f s n k = λ h. cc
  Ends-continue diverges f s n k = λ h. n refl

  pub Ends-bind :
      {A B : Type 0} (m : Exec S A) (f : A → Exec S B)
      → Ends m
      → ((a : A) → Ends (f a))
      → Ends (m >>= f)
  unfolding ◌>>=◌
  Ends-bind m f km kf = record { at = λ s. Ends-continue (m s).0 f (m s).1 (km.at s) (λ a _. kf a) }

  -- The rest may use what the value is.
  pub Ends-bind-lift :
      {A B : Type 0} (r : Outcome A) (f : A → Exec S B)
      → r ≢ diverges
      → ((a : A) → r ≡ ok a → Ends (f a))
      → Ends (lift r >>= f)
  unfolding ◌>>=◌
  Ends-bind-lift r f n k = record { at = λ s. Ends-continue r f s n k }

  pub Ends-if :
      {A : Type 0} (b : Bool) (m n : Exec S A) → Ends m → Ends n → Ends (if b then m else n)
  Ends-if true m n km kn = km
  Ends-if false m n km kn = kn

  pub Ends-on_handle : {A : Type 0} (f : Handle → S → A × S) → Ends (on_handle f)
  unfolding on_handle
  Ends-on_handle f = record { at = λ s h. cc }

pub ruleset ends_rules =
    (Ends-pure, Ends-fail, Ends-state, Ends-check, Ends-bind, Ends-if, Ends-on_handle)

module _ {S : Type 0} (x : Extern S) where
  bind_result-Ends : (rc : ℤ) → Ends (bind_result x rc)
  unfolding bind_result
  bind_result-Ends rc = search ends_rules

  ruleset calls = (ends_rules, bind_result-Ends)

  bind_driver_value-Ends :
      (i : ℤ) (v : Value) → is_driver_value v ≡ true → Ends (bind_value x 1 i v)
  unfolding bind_value
  bind_driver_value-Ends i nil h = search calls
  bind_driver_value-Ends i (int64 v) h = search calls
  bind_driver_value-Ends i (float64 v) h = search calls
  bind_driver_value-Ends i (bool v) h = search calls
  bind_driver_value-Ends i (string v) h = search calls
  bind_driver_value-Ends i (bytes v) h = search calls
  bind_driver_value-Ends i (time v) h = search calls
  bind_driver_value-Ends i v h = cc

  bind_other-Ends :
      (i : ℤ) (v : Value) (b : Value → Bool) (e : GoError)
      → Ends (lift (normalize_value v) >>= λ n. if b n then fail e else bind_value x 1 i n)
  bind_other-Ends i v b e =
      Ends-bind-lift (normalize_value v) _ (normal_ends _ (normalize_value-IsNormal v)) λ n p.
        Ends-if _ _ _ (Ends-fail e)
          (bind_driver_value-Ends i n (normal_value _ n (normalize_value-IsNormal v) p))

  -- Two calls of bindValue are deep enough for every value.
  pub bind_value-Ends : (i : ℤ) (v : Value) → Ends (bind_value x 2 i v)
  unfolding bind_value
  bind_value-Ends i nil = search calls
  bind_value-Ends i (int64 v) = search calls
  bind_value-Ends i (float64 v) = search calls
  bind_value-Ends i (bool v) = search calls
  bind_value-Ends i (string v) = search calls
  bind_value-Ends i (bytes v) = search calls
  bind_value-Ends i (time v) = search calls
  bind_value-Ends i v = bind_other-Ends i v _ _

  index_ends : (arg : NamedValue) (e : StmtEnv S) → resolve_index x arg e ≢ diverges
  unfolding resolve_index
  index_ends arg e h = ground arith

  bind_args-Ends : (args : List NamedValue) → Ends (bind_args x args)
  unfolding bind_args bind_arg
  bind_args-Ends [] = search ends_rules
  bind_args-Ends (arg ∷ args) =
      Ends-bind (bind_arg x arg) (λ _. bind_args x args)
        (Ends-bind state _ Ends-state
          λ e. Ends-bind-lift _ _ (index_ends arg e) (λ i _. bind_value-Ends i arg.value))
        (λ _. bind_args-Ends args)

  pub bind_named_values-Ends : (args : List NamedValue) → Ends (bind_named_values x args)
  unfolding bind_named_values
  bind_named_values-Ends args = search (calls, bind_args-Ends) depth 20

  -- Binding ends for arguments whose Valuers, if there are any, come to an end. If `call` is what the Value
  -- methods of the Valuers return, and each argument stands for a value of Go, so that its chain of Valuers
  -- ends, then normalizeValue returns for each of these values after some number of calls of Value, with what
  -- normalize_value is of the argument, and bindNamedValues ends. (On a Valuer that returns itself the
  -- program does not end.)
  pub bind_named_values_ends :
      {V : Type 0} (call : V → Dynamic V) (given : List (Dynamic V)) (args : List NamedValue)
      (e : StmtEnv S)
      → StandFor call given args
      → AreNormalized call given args × ((bind_named_values x args e).0 ≢ diverges)
  bind_named_values_ends call given args e h =
      (StandFor-AreNormalized call given args h, (bind_named_values-Ends args).at e)
