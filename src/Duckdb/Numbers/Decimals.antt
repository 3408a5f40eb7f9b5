-- ===== src/Duckdb/Numbers/Decimals.antt =====
-- duckdb.go: the digits of a decimal.
use purego_gen.Prelude.{ℕ, suc, ◌+◌, ◌*◌, ◌≡◌, ◌∷◌, ◌++◌, length}
use purego_gen.Prelude.Int.{ℤ, pos, negsuc}
use purego_gen.Prelude.Text.{Text}
use purego_gen.Prelude.Decimal.{value, tens}
use purego_gen.Go.Exec.{Outcome, ok}

-- The text of a decimal: a sign, the digits of the whole part, a point, and as many digits as the scale
-- says; all the digits together denote `size`.
abbrev pub Denotes : Outcome Text → Text → ℕ → ℕ → Type 0
Denotes r sign size scale =
    (whole : Text) × (frac : Text) × (r ≡ ok (sign ++ (whole ++ b'.' ∷ frac)))
    × (length frac ≡ scale)
    × (value whole * tens scale + value frac ≡ size)

abbrev pub absolute : ℤ → ℕ
absolute (pos n) = n
absolute (negsuc n) = suc n
