-- ===== src/Sys/Memory/Bytes.antt =====
-- Writing bytes to memory, and numbers as bytes.
use purego_gen.Prelude.{
  ℕ, zero, suc, ◌+◌, ◌*◌, ◌/◌, ◌%◌, ◌≤◌, ◌<◌, ◌≡◌, refl, ap, ◌⊎◌, List, [], ◌∷◌, ◌==◌,
  if◌then◌else◌, arith, length,
}
use purego_gen.Prelude.Text.{Text}
use purego_gen.Sys.Memory.{Memory, bytes_at, from_bytes}

-- Bytes written one after the other.
unfoldable pub write : Memory → ℕ → Text → Memory
write m p [] a = m a
write m p (b ∷ bs) a = if a == p then b else write m (p + 1) bs a

-- An address that a number of bytes at a pointer do not reach.
abbrev pub IsOutside : ℕ → ℕ → ℕ → Type 0
IsOutside a p n = (a < p) ⊎ (p + n ≤ a)

pub write-outside :
    (m : Memory) (p a : ℕ) (bs : Text) → IsOutside a p (length bs) → write m p bs a ≡ m a
unfolding write
write-outside m p a [] h = refl
write-outside m p a (b ∷ bs) h = ground (arith, write-outside m (p + 1) a bs)

pub bytes_at_cong :
    (m m' : Memory) (p n : ℕ)
    → ((a : ℕ) → p ≤ a → a < p + n → m a ≡ m' a)
    → bytes_at m p n ≡ bytes_at m' p n
unfolding bytes_at
bytes_at_cong m m' p zero h = refl
bytes_at_cong m m' p (suc n) h =
    let rest = bytes_at_cong m m' (p + 1) n (λ a l u. h a (omega arith) (omega arith)) in
    ground (arith, rest, h p)

pub bytes_at-write : (m : Memory) (p : ℕ) (bs : Text) → bytes_at (write m p bs) p (length bs) ≡ bs
unfolding bytes_at write
bytes_at-write m p [] = refl
bytes_at-write m p (b ∷ bs) =
    let rest =
      bytes_at_cong (write m p (b ∷ bs)) (write m (p + 1) bs) (p + 1) (length bs)
        (λ a l u. ground arith) in
    ground (arith, rest, bytes_at-write m (p + 1) bs)

-- Bytes that a write does not reach.
pub bytes_at-write_apart :
    (m : Memory) (p n q : ℕ) (bs : Text)
    → (p + n ≤ q) ⊎ (q + length bs ≤ p)
    → bytes_at (write m q bs) p n ≡ bytes_at m p n
bytes_at-write_apart m p n q bs h =
    bytes_at_cong (write m q bs) m p n (λ a l u. write-outside m q a bs (ground arith))

-- A number as a given number of bytes, the lowest first, and the first number that does not fit.
unfoldable pub to_bytes : ℕ → ℕ → List ℕ
to_bytes zero n = []
to_bytes (suc w) n = n % 256 ∷ to_bytes w (n / 256)

abbrev pub limit : ℕ → ℕ
limit zero = 1
limit (suc w) = 256 * limit w

pub length-to_bytes : (w n : ℕ) → length (to_bytes w n) ≡ w
unfolding to_bytes
length-to_bytes zero n = refl
length-to_bytes (suc w) n = ap suc (length-to_bytes w (n / 256))

pub from_bytes-to_bytes : (w n : ℕ) → n < limit w → from_bytes (to_bytes w n) ≡ n
unfolding from_bytes to_bytes
from_bytes-to_bytes zero n h = omega arith
from_bytes-to_bytes (suc w) n h = omega (arith, from_bytes-to_bytes w (n / 256) (omega arith))
