-- ===== src/Sqlite3/Values/Normal.antt =====
-- sqlite3.go: the values that normalizeValue returns, and the names of positional arguments.
use purego_gen.Prelude.{
  ℕ, zero, suc, ◌+◌, ◌<◌, ◌≤◌, ◌≡◌, refl, List, [], ◌∷◌, some, arith, get_elem?, ap, ◌∙◌, subst,
  sym, ◌⊎◌, inl, inr, ltb, if◌then◌else◌, Bool-cases, true, false,
}
use mathlib.Core.Option
use purego_gen.Prelude.Int.{ℤ, pos, negsuc}
use purego_gen.Go.{
  Value, nil, int64, float64, bool, string, bytes, time, int, int8, int16, int32, uint, uint8,
  uint16, uint32, uint64, valuer_ok, NamedValue, GoError,
}
use purego_gen.Go.Exec.{Outcome, ok, err}
use purego_gen.Sqlite3.Values.{normalize_value, named_from, values_to_named_values}
use purego_gen.Sqlite3.Bind.Total.{is_driver_value, IsNormal, normalize_value-IsNormal}

abbrev pub Fits : ℕ → ℤ → Type 0
Fits bound (pos n) = n < bound
Fits bound (negsuc n) = n < bound

-- The integers of a Go value are in the range of their types.
abbrev pub InRange : Value → Type 0
InRange (int64 v) = Fits 9223372036854775808 v
InRange (int v) = Fits 9223372036854775808 v
InRange (int8 v) = Fits 128 v
InRange (int16 v) = Fits 32768 v
InRange (int32 v) = Fits 2147483648 v
InRange (uint v) = v < 18446744073709551616
InRange (uint8 v) = v < 256
InRange (uint16 v) = v < 65536
InRange (uint32 v) = v < 4294967296
InRange (uint64 v) = v < 18446744073709551616
InRange (valuer_ok v) = InRange v
InRange v = Unit {0}

Fits-more : (a b : ℕ) (v : ℤ) → a ≤ b → Fits a v → Fits b v
Fits-more a b (pos n) l h = omega arith
Fits-more a b (negsuc n) l h = omega arith

-- The integer that a value of one of Go's integer types is; a Valuer stands for what it returns.
abbrev pub IsInteger : Value → ℤ → Type 0
IsInteger (int64 v) z = v ≡ z
IsInteger (int v) z = v ≡ z
IsInteger (int8 v) z = v ≡ z
IsInteger (int16 v) z = v ≡ z
IsInteger (int32 v) z = v ≡ z
IsInteger (uint v) z = pos v ≡ z
IsInteger (uint8 v) z = pos v ≡ z
IsInteger (uint16 v) z = pos v ≡ z
IsInteger (uint32 v) z = pos v ≡ z
IsInteger (uint64 v) z = pos v ≡ z
IsInteger (valuer_ok v) z = IsInteger v z
IsInteger v z = ⊥

-- The same integer as an int64, if it is in the range of int64, and else an error.
abbrev pub IsExact : ℤ → Outcome Value → Type 0
IsExact z r =
    (Fits 9223372036854775808 z × (r ≡ ok (int64 z)))
    ⊎ ((Fits 9223372036854775808 z → ⊥) × (e : GoError) × (r ≡ err e))

signed-IsExact :
    (bound : ℕ) (v z : ℤ)
    → bound ≤ 9223372036854775808
    → Fits bound v
    → v ≡ z
    → IsExact z (ok (int64 v))
signed-IsExact bound v z l r e =
    inl (subst (Fits 9223372036854775808) e (Fits-more bound _ v l r), ap (λ w. ok (int64 w)) e)

small-Fits : (n : ℕ) → ltb 9223372036854775807 n ≡ false → Fits 9223372036854775808 (pos n)
small-Fits n h = ground arith

unsigned-IsExact :
    (v : ℕ) (z : ℤ) (f : GoError)
    → pos v ≡ z
    → IsExact z (if ltb 9223372036854775807 v then err f else ok (int64 (pos v)))
unsigned-IsExact v z f e = elim (Bool-cases (ltb 9223372036854775807 v)) [
  | inl large ↦ rw large (inr (λ fits. too_large v z large e fits, f, refl))
  | inr small ↦
      rw small
        (inl (subst (Fits 9223372036854775808) e (small-Fits v small), ap (λ w. ok (int64 w)) e))
]
  where
    too_large :
        (n : ℕ) (y : ℤ)
        → ltb 9223372036854775807 n ≡ true
        → pos n ≡ y
        → Fits 9223372036854775808 y
        → ⊥
    too_large n y l p k = ground (arith, subst (Fits 9223372036854775808) (sym p) k)

-- normalizeValue of a value of one of Go's integer types, in the range of its type, is the same integer as an
-- int64, where that is in the range of int64, and an error where it is not; and so for a Valuer that
-- stands for such a value.
pub normalize_value-IsExact :
    (v : Value) (z : ℤ) → InRange v → IsInteger v z → IsExact z (normalize_value v)
unfolding normalize_value
normalize_value-IsExact (int64 v) z r e = signed-IsExact 9223372036854775808 v z (omega arith) r e
normalize_value-IsExact (int v) z r e = signed-IsExact 9223372036854775808 v z (omega arith) r e
normalize_value-IsExact (int8 v) z r e = signed-IsExact 128 v z (omega arith) r e
normalize_value-IsExact (int16 v) z r e = signed-IsExact 32768 v z (omega arith) r e
normalize_value-IsExact (int32 v) z r e = signed-IsExact 2147483648 v z (omega arith) r e
normalize_value-IsExact (uint v) z r e = unsigned-IsExact v z _ e
normalize_value-IsExact (uint8 v) z r e = signed-IsExact 256 (pos v) z (omega arith) r e
normalize_value-IsExact (uint16 v) z r e = signed-IsExact 65536 (pos v) z (omega arith) r e
normalize_value-IsExact (uint32 v) z r e = signed-IsExact 4294967296 (pos v) z (omega arith) r e
normalize_value-IsExact (uint64 v) z r e = unsigned-IsExact v z _ e
normalize_value-IsExact (valuer_ok v) z r e = normalize_value-IsExact v z r e
normalize_value-IsExact _ z r e = absurd e

normalize_driver_value : (v : Value) → is_driver_value v ≡ true → normalize_value v ≡ ok v
unfolding normalize_value
normalize_driver_value nil h = refl
normalize_driver_value (int64 v) h = refl
normalize_driver_value (float64 v) h = refl
normalize_driver_value (bool v) h = refl
normalize_driver_value (string v) h = refl
normalize_driver_value (bytes v) h = refl
normalize_driver_value (time v) h = refl
normalize_driver_value _ h = cc

-- A value that normalizeValue returns is one of the driver values, and normalizing it again changes
-- nothing.
normalize_value-normalize_value :
    (v w : Value)
    → normalize_value v ≡ ok w
    → (is_driver_value w ≡ true) × (normalize_value w ≡ ok w)
normalize_value-normalize_value v w h =
    let driver : is_driver_value w ≡ true = subst IsNormal h (normalize_value-IsNormal v) in
    (driver, normalize_driver_value w driver)

abbrev pub positional : ℕ → Value → NamedValue
positional ordinal v = record { name = []; ordinal = pos ordinal; value = v }

named_from_lem :
    (start : ℕ) (vs : List Value) (i : ℕ)
    → get_elem? (named_from start vs) i ≡ Option.map (positional (start + i + 1)) (get_elem? vs i)
unfolding named_from
named_from_lem start [] i = refl
named_from_lem start (v ∷ vs) zero = ap (λ n. some (positional n v)) (omega arith)
named_from_lem start (v ∷ vs) (suc i) =
    named_from_lem (start + 1) vs i
    ∙ ap (λ n. Option.map (positional n) (get_elem? vs i)) (omega arith)

-- Positional arguments keep their values and order, without names, with ordinals that count from 1.
pub values_to_named_values_lem :
    (vs : List Value) (i : ℕ)
    → get_elem? (values_to_named_values vs) i ≡ Option.map (positional (i + 1)) (get_elem? vs i)
unfolding values_to_named_values
values_to_named_values_lem vs i =
    named_from_lem 0 vs i ∙ ap (λ n. Option.map (positional n) (get_elem? vs i)) (omega arith)
