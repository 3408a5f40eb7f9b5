-- ===== src/Duckdb/Numbers/Timestamps.antt =====
-- duckdb.go: timestamps.
use purego_gen.Prelude.{
  ℕ, suc, ◌-◌, ◌*◌, ◌/◌, ◌%◌, ◌<◌, ◌≡◌, refl, ◌∙◌, ap, arith, Bool-cases, inl, inr, ◌==◌,
}
use purego_gen.Prelude.Int.{ℤ, pos, negsuc, ◌+ℤ◌, ◌-ℤ◌, ◌*ℤ◌, quot, rem, bits, to_int64}
use purego_gen.Duckdb.Numbers.{timestamp_parts, timestamp_from}

-- The range of int64.
abbrev pub IsInt64 : ℤ → Type 0
IsInt64 (pos n) = n < 9223372036854775808
IsInt64 (negsuc n) = n < 9223372036854775808

to_int64_lem : (z : ℤ) → IsInt64 z → to_int64 z ≡ z
unfolding bits
to_int64_lem (pos n) h = ground arith
to_int64_lem (negsuc n) h = ground arith

parts_pos : (m : ℕ) → timestamp_parts (pos m) ≡ (pos (m / 1000000), pos (m % 1000000 * 1000))
unfolding timestamp_parts quot rem ◌*ℤ◌
parts_pos m = ground arith

parts_exact :
    (m : ℕ)
    → suc m % 1000000 ≡ 0
    → timestamp_parts (negsuc m) ≡ (negsuc (suc m / 1000000 - 1), pos 0)
unfolding timestamp_parts quot rem ◌*ℤ◌
parts_exact m h = simp h (ground arith)

parts_negsuc :
    (m : ℕ)
    → 0 < suc m % 1000000
    → timestamp_parts (negsuc m)
      ≡ (negsuc (suc m / 1000000), pos ((1000000 - suc m % 1000000) * 1000))
unfolding timestamp_parts quot rem ◌*ℤ◌ ◌+ℤ◌ ◌-ℤ◌
parts_negsuc m h = ground arith

-- What a product wraps around to makes no difference to the sum.
wrapped_sum : (z : ℤ) (k : ℕ) → to_int64 (to_int64 z +ℤ pos k) ≡ to_int64 (z +ℤ pos k)
unfolding bits ◌+ℤ◌
wrapped_sum (pos n) k = ground arith
wrapped_sum (negsuc n) k = ground arith

from_parts :
    (micros seconds : ℤ) (k : ℕ)
    → IsInt64 micros
    → seconds *ℤ pos 1000000 +ℤ pos k ≡ micros
    → timestamp_from seconds (k * 1000) ≡ micros
unfolding timestamp_from
from_parts micros seconds k h e =
    ap (λ j. to_int64 (to_int64 (seconds *ℤ pos 1000000) +ℤ pos j)) (omega arith)
    ∙ wrapped_sum (seconds *ℤ pos 1000000) k
    ∙ ap to_int64 e
    ∙ to_int64_lem micros h

sum_pos : (m : ℕ) → pos (m / 1000000) *ℤ pos 1000000 +ℤ pos (m % 1000000) ≡ pos m
unfolding ◌*ℤ◌ ◌+ℤ◌
sum_pos m = ground arith

sum_exact :
    (m : ℕ) → suc m % 1000000 ≡ 0 → negsuc (suc m / 1000000 - 1) *ℤ pos 1000000 +ℤ pos 0 ≡ negsuc m
unfolding ◌*ℤ◌ ◌+ℤ◌
sum_exact m h = ground arith

sum_negsuc :
    (m : ℕ)
    → 0 < suc m % 1000000
    → negsuc (suc m / 1000000) *ℤ pos 1000000 +ℤ pos (1000000 - suc m % 1000000) ≡ negsuc m
unfolding ◌*ℤ◌ ◌+ℤ◌
sum_negsuc m h = ground arith

-- A whole number of microseconds below one second, as nanoseconds.
abbrev pub WholeMicros : ℤ → ℕ → Type 0
WholeMicros nanos k = (nanos ≡ pos (k * 1000)) × (k < 1000000)

abbrev RoundTrips : ℤ × ℤ → ℤ → Type 0
RoundTrips (seconds, nanos) micros =
    (k : ℕ) × WholeMicros nanos k × (timestamp_from seconds (k * 1000) ≡ micros)

negative_round_trip :
    (m : ℕ) → IsInt64 (negsuc m) → RoundTrips (timestamp_parts (negsuc m)) (negsuc m)
negative_round_trip m h = elim (Bool-cases (suc m % 1000000 == 0)) [
  | inl exact ↦
      let e : suc m % 1000000 ≡ 0 = ground arith in
      rw (parts_exact m e) (0, (refl, omega arith), from_parts (negsuc m) _ 0 h (sum_exact m e))
  | inr rest ↦
      let r : 0 < suc m % 1000000 = ground arith in
      rw (parts_negsuc m r) (
        1000000 - suc m % 1000000,
        (refl, omega arith),
        from_parts (negsuc m) _ (1000000 - suc m % 1000000) h (sum_negsuc m r),
      )
]

-- The nanoseconds that timestampToTime gives to time.Unix are a whole number of microseconds below one
-- second, and timeToTimestamp of these seconds and nanoseconds is the timestamp again, for every int64: also
-- for the lowest ones, where its product of the seconds and 1,000,000 wraps around, and the sum back.
pub timestamp_round_trip :
    (micros : ℤ)
    → IsInt64 micros
    → (k : ℕ) × WholeMicros (timestamp_parts micros).1 k
      × (timestamp_from (timestamp_parts micros).0 (k * 1000) ≡ micros)
timestamp_round_trip (pos m) h = rw (parts_pos m) (
  m % 1000000,
  (refl, omega arith),
  from_parts (pos m) (pos (m / 1000000)) (m % 1000000) h (sum_pos m),
)
timestamp_round_trip (negsuc m) h = negative_round_trip m h
