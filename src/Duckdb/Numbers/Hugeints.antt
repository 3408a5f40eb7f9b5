-- ===== src/Duckdb/Numbers/Hugeints.antt =====
-- duckdb.go: what the text of a 128-bit integer denotes.
use purego_gen.Prelude.{ℕ, ◌+◌, ◌-◌, ◌*◌, ◌<◌, ◌≡◌, ◌∙◌, ap, ◌∷◌, arith, ◌==◌, false}
use purego_gen.Prelude.Int.{pos, negsuc}
use purego_gen.Prelude.Decimal.{
  print, pad, value, value-print, value-pad, value-append, tens, length-pad, length-print,
}
use purego_gen.Duckdb.Numbers.{hugeint_to_string}

is_positive : (n : ℕ) → 0 < n → n == 0 ≡ false
is_positive n h = ground arith

-- In the range of 64 bits the text is the number: the upper half is 0, or -1 with a lower half that is
-- not 0.
hugeint_small :
    (lower : ℕ)
    → 0 < lower
    → lower < 18446744073709551616
    → (value (hugeint_to_string (pos 0) lower) ≡ lower)
      × (hugeint_to_string (negsuc 0) lower ≡ b'-' ∷ print (18446744073709551616 - lower))
unfolding hugeint_to_string
hugeint_small lower k h = (value-print lower, ground arith)

-- Above it, the text is that of the upper half followed by twenty digits of the lower one: it denotes
-- upper * 10^20 + lower, which is not upper * 2^64 + lower.
pub value-hugeint_to_string :
    (upper lower : ℕ)
    → 0 < upper
    → lower < 18446744073709551616
    → value (hugeint_to_string (pos upper) lower) ≡ upper * 100000000000000000000 + lower
unfolding hugeint_to_string
value-hugeint_to_string upper lower u l = simp (is_positive upper u) (
    value-append (print upper) (pad 20 (print lower))
    ∙ ap (λ n. value (print upper) * tens n + value (pad 20 (print lower)))
        (length-pad 20 (print lower) (length-print 19 lower (omega arith)))
    ∙ omega (arith, value-print upper, value-pad 20 (print lower), value-print lower))
