-- ===== src/Sqlite3/Values/Valuers.antt =====
-- sqlite3.go: normalizeValue on values of Go, whose Valuers may never come to an end. For a chain of Valuers that
-- ends it is normalize_value of the `Value` that the chain makes.
use purego_gen.Prelude.{ℕ, zero, suc, ◌≡◌, refl, List, [], ◌∷◌}
use purego_gen.Go.{Value, valuer_ok, valuer_err, NamedValue, GoError}
use purego_gen.Go.Exec.{Outcome, err, diverges}
use purego_gen.Sqlite3.Values.{normalize_value}

-- A value of type any: a Valuer, or one that is none. What a call of Value() returns is such a value or an error.
pub data Dynamic (V : Type 0) : Type 0 where
  settled : Value → Dynamic V
  valuer : V → Dynamic V
  failed : GoError → Dynamic V

module _ {V : Type 0} (call : V → Dynamic V) where
  -- The last two cases of the switch, with the number of Valuers that may be called.
  unfoldable pub normalize_within : ℕ → Dynamic V → Outcome Value
  normalize_within n (settled v) = normalize_value v
  normalize_within n (failed e) = err e
  normalize_within zero (valuer v) = diverges
  normalize_within (suc n) (valuer v) = normalize_within n (call v)

  -- The `Value` that stands for a value of Go, where one does.
  pub data IsValue : Dynamic V → Value → Type 0 where
    settles : (v : Value) → IsValue (settled v) v
    fails : (e : GoError) → IsValue (failed e) (valuer_err e)
    calls : (v : V) (w : Value) → IsValue (call v) w → IsValue (valuer v) (valuer_ok w)

  -- On a chain of Valuers that ends, the Go function ends, with what normalize_value is of the `Value` that
  -- stands for the chain.
  normalize_within-IsValue :
      {d : Dynamic V} {w : Value}
      → IsValue d w
      → (n : ℕ) × (normalize_within n d ≡ normalize_value w)
  unfolding normalize_within normalize_value
  normalize_within-IsValue (settles v) = (0, refl)
  normalize_within-IsValue (fails e) = (0, refl)
  normalize_within-IsValue (calls v w h) =
      let (n, same) = normalize_within-IsValue h in (suc n, same)

  -- Arguments whose values stand for values of Go, one for each.
  abbrev pub StandFor : List (Dynamic V) → List NamedValue → Type 0
  StandFor [] [] = Unit
  StandFor (d ∷ ds) (a ∷ args) = IsValue d a.value × StandFor ds args
  StandFor ds args = ⊥

  -- For each of them some number of calls of Valuers is enough for normalizeValue to return, and it returns what
  -- normalize_value is of the argument.
  abbrev pub AreNormalized : List (Dynamic V) → List NamedValue → Type 0
  AreNormalized [] [] = Unit
  AreNormalized (d ∷ ds) (a ∷ args) =
      ((n : ℕ) × (normalize_within n d ≡ normalize_value a.value)) × AreNormalized ds args
  AreNormalized ds args = ⊥

  pub StandFor-AreNormalized :
      (ds : List (Dynamic V)) (args : List NamedValue) → StandFor ds args → AreNormalized ds args
  StandFor-AreNormalized [] [] h = tt
  StandFor-AreNormalized (d ∷ ds) (a ∷ args) (h, k) =
      (normalize_within-IsValue h, StandFor-AreNormalized ds args k)
  StandFor-AreNormalized [] (a ∷ args) h = h
  StandFor-AreNormalized (d ∷ ds) [] h = h

  -- On a Valuer that returns itself it does not end, however many calls there are.
  self_valuer_diverges :
      (v : V) (n : ℕ) → call v ≡ valuer v → normalize_within n (valuer v) ≡ diverges
  unfolding normalize_within
  self_valuer_diverges v zero h = refl
  self_valuer_diverges v (suc n) h = rw h (self_valuer_diverges v n h)
