-- ===== src/Duckdb/Numbers.antt =====
-- duckdb.go: timestamps, 128-bit integers and decimals.
pub mod Timestamps
pub mod Hugeints
pub mod Decimals
use purego_gen.Prelude.{
  ℕ, zero, suc, ◌+◌, ◌-◌, ◌*◌, ◌/◌, ◌%◌, ◌^◌, Bool, ◌++◌, [], ◌∷◌, ltb, ◌==◌, if◌then◌else◌,
}
use purego_gen.Prelude.Int.{
  ℤ, pos, negsuc, ◌+ℤ◌, ◌-ℤ◌, ◌*ℤ◌, ltb_ℤ, ◌==ℤ◌, quot, rem, quot_ℤ, rem_ℤ, to_int64,
}
use purego_gen.Go.Exec.{Outcome, ok, panics}
use purego_gen.Prelude.Text.{Text, codes}
use purego_gen.Prelude.Decimal.{print, print_int, pad}

-- timestampToTime: the seconds and the nanoseconds that it gives to time.Unix.
unfoldable pub timestamp_parts : ℤ → ℤ × ℤ
timestamp_parts micros =
    let seconds = quot micros 1000000 in
    let remainder = rem micros 1000000 in
    if ltb_ℤ remainder (pos 0)
    then (seconds -ℤ pos 1, (remainder +ℤ pos 1000000) *ℤ pos 1000)
    else (seconds, remainder *ℤ pos 1000)

-- timeToTimestamp, from t.Unix() and t.Nanosecond(); int64 wraps around in the product and in the sum.
unfoldable pub timestamp_from : ℤ → ℕ → ℤ
timestamp_from seconds nanosecond =
    to_int64 (to_int64 (seconds *ℤ pos 1000000) +ℤ pos (nanosecond / 1000))

-- The uint64 with the given bits, negated, and with all bits flipped.
abbrev pub neg_uint64 : ℕ → ℕ
neg_uint64 n = (2 ^ 64 - n) % 2 ^ 64

-- `upper` is an int64, `lower` a uint64.
unfoldable pub hugeint_to_string : ℤ → ℕ → Text
hugeint_to_string (pos upper) lower =
    if upper == 0 then print lower else print upper ++ pad 20 (print lower)
hugeint_to_string (negsuc n) lower =
    let neg_lower = neg_uint64 lower in
    let neg_upper = if neg_lower == 0 then n + 1 else n in
    if lower == 0
    then b'-' ∷ (print_int (to_int64 (pos (suc n))) ++ codes "0000000000000000000")
    else if neg_upper == 0
    then b'-' ∷ print neg_lower
    else b'-' ∷ (print neg_upper ++ pad 20 (print neg_lower))

-- The loop over the scale; int64 wraps around.
abbrev pub times_ten : ℕ → ℤ → ℤ
times_ten zero divisor = divisor
times_ten (suc n) divisor = times_ten n (to_int64 (divisor *ℤ pos 10))

abbrev pub magnitude : ℤ → ℤ
magnitude value = if ltb_ℤ value (pos 0) then to_int64 (pos 0 -ℤ value) else value

abbrev pub sign_text : ℤ → Text
sign_text value = if ltb_ℤ value (pos 0) then b'-' ∷ [] else []

abbrev pub divided : Text → ℤ → ℕ → ℤ → Text
divided sign value scale divisor =
    sign ++ (print_int (quot_ℤ value divisor) ++ b'.' ∷ pad scale (print_int (rem_ℤ value divisor)))

-- readDecimalValue for a scale that is not 0; `value` is an int64. A division by 0 panics.
unfoldable pub decimal_text : ℤ → ℕ → Outcome Text
decimal_text value scale =
    let divisor = times_ten scale (pos 1) in
    if divisor ==ℤ pos 0
    then panics
    else ok (divided (sign_text value) (magnitude value) scale divisor)
