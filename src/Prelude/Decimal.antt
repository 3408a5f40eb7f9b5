-- ===== src/Prelude/Decimal.antt =====
-- Decimal printing, as by strconv.FormatUint and the verbs %d and %0nd, and the number that a text of
-- digits denotes.
use Prim.Native.Nat.{ℕ, zero, suc, ◌+◌, ◌-◌, ◌*◌, ◌/◌, ◌%◌, ◌≤◌, ◌<◌}
use mathlib.Core.Path.{◌≡◌, refl, ◌∙◌}
use mathlib.Core.Logic.{inl, inr}
use mathlib.Core.List.{[], ◌∷◌, ◌++◌}
use native.Mathlib.Omega.{arith}
use purego_gen.Prelude.Tests.{ltb, if◌then◌else◌, Bool-cases}
use purego_gen.Prelude.Lists.{length, replicate, length-append, length-replicate}
use purego_gen.Prelude.Int.{ℤ, pos, negsuc}
use purego_gen.Prelude.Text.{Text}

-- `n` serves as its own fuel.
print_fuel : ℕ → ℕ → Text
print_fuel zero n = (b'0' + n % 10) ∷ []
print_fuel (suc f) n =
    let rest = print_fuel f (n / 10) in
    if ltb n 10 then (b'0' + n % 10) ∷ [] else rest ++ (b'0' + n % 10) ∷ []

unfoldable pub print : ℕ → Text
unfolding print_fuel
print n = print_fuel n n

unfoldable pub print_int : ℤ → Text
print_int (pos n) = print n
print_int (negsuc n) = b'-' ∷ print (suc n)

-- %0wd: zeros in front, up to `w` digits.
unfoldable pub pad : ℕ → Text → Text
pad w t = replicate (w - length t) b'0' ++ t

-- The number that digits denote, after the number that stands before them.
abbrev pub value_from : ℕ → Text → ℕ
value_from acc [] = acc
value_from acc (c ∷ cs) = value_from (acc * 10 + (c - b'0')) cs

abbrev pub value : Text → ℕ
value t = value_from 0 t

pub value_from-append :
    (acc : ℕ) (xs ys : Text) → value_from acc (xs ++ ys) ≡ value_from (value_from acc xs) ys
value_from-append acc [] ys = refl
value_from-append acc (x ∷ xs) ys = value_from-append (acc * 10 + (x - b'0')) xs ys

value-print_fuel : (f n : ℕ) → n ≤ f → value (print_fuel f n) ≡ n
unfolding print_fuel
value-print_fuel zero n h = omega arith
value-print_fuel (suc f) n h = elim (Bool-cases (ltb n 10)) [
  | inl small ↦ rw small (ground arith)
  | inr big ↦
      rw (big, value_from-append 0 (print_fuel f (n / 10)))
        (rw (value-print_fuel f (n / 10) (ground arith)) (omega arith))
]

pub value-print : (n : ℕ) → value (print n) ≡ n
unfolding print
value-print n = value-print_fuel n n (omega arith)

pub value-zeros : (k : ℕ) (t : Text) → value (replicate k b'0' ++ t) ≡ value t
value-zeros zero t = refl
value-zeros (suc k) t = value-zeros k t

pub value-pad : (w : ℕ) (t : Text) → value (pad w t) ≡ value t
unfolding pad
value-pad w t = value-zeros (w - length t) t

abbrev pub tens : ℕ → ℕ
tens zero = 1
tens (suc k) = 10 * tens k

length-print_fuel : (f k n : ℕ) → n < tens (suc k) → length (print_fuel f n) ≤ suc k
unfolding print_fuel
length-print_fuel zero k n h = omega arith
length-print_fuel (suc f) zero n h = ground arith
length-print_fuel (suc f) (suc k) n h = ground (
  arith,
  length-append (print_fuel f (n / 10)) ((b'0' + n % 10) ∷ []),
  length-print_fuel f k (n / 10) (omega arith),
)

pub length-print : (k n : ℕ) → n < tens (suc k) → length (print n) ≤ suc k
unfolding print
length-print k n h = length-print_fuel n k n h

pub length-pad : (w : ℕ) (t : Text) → length t ≤ w → length (pad w t) ≡ w
unfolding pad
length-pad w t h = omega (
  arith,
  length-append (replicate (w - length t) b'0') t,
  length-replicate {A = ℕ} (w - length t) b'0',
)

shift_digits : (a d t : ℕ) → (a * 10 + d) * t ≡ a * (10 * t) + d * t
shift_digits a d t = omega arith

value_from_lem : (acc : ℕ) (t : Text) → value_from acc t ≡ acc * tens (length t) + value t
value_from_lem acc [] = omega arith
value_from_lem acc (c ∷ cs) = omega (
  arith,
  value_from_lem (acc * 10 + (c - b'0')) cs,
  value_from_lem (0 + (c - b'0')) cs,
  shift_digits acc (c - b'0') (tens (length cs)),
)

pub value-append : (s t : Text) → value (s ++ t) ≡ value s * tens (length t) + value t
value-append s t = value_from-append 0 s t ∙ value_from_lem (value s) t
