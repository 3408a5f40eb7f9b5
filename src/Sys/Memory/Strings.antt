-- ===== src/Sys/Memory/Strings.antt =====
-- sqlite3/sqlite3sys/load.go, generated.go and sqlite3/sqlite3.go: goString, gostring and ptrToString on what
-- cStringPtr lays out.
use purego_gen.Prelude.{
  ℕ, zero, suc, ◌+◌, ◌≤◌, ◌<◌, ◌≡◌, ◌≢◌, refl, subst, [], ◌∷◌, ◌++◌, some, arith, length,
}
use purego_gen.Prelude.Text.{Text}
use purego_gen.Sys.Memory.{Memory, bytes_at, scan, gostring, scan_max, go_string_within, c_string}
use purego_gen.Sys.Memory.Bytes.{write}

-- A text without zero bytes, with a zero byte behind it.
abbrev pub IsCString : Memory → ℕ → Text → Type 0
IsCString m p [] = m p ≡ 0
IsCString m p (b ∷ bs) = (m p ≡ b) × (0 < b) × IsCString m (p + 1) bs

abbrev pub HasNoZero : Text → Type 0
HasNoZero [] = Unit
HasNoZero (b ∷ bs) = (0 < b) × HasNoZero bs

IsCString-cong :
    (m m' : Memory) (p : ℕ) (s : Text)
    → ((a : ℕ) → p ≤ a → m a ≡ m' a)
    → IsCString m' p s
    → IsCString m p s
IsCString-cong m m' p [] h t = ground (arith, h p)
IsCString-cong m m' p (b ∷ bs) h t =
    (ground (arith, h p), t.1, IsCString-cong m m' (p + 1) bs (λ a l. h a (omega arith)) t.2)

pub write-IsCString :
    (m : Memory) (p : ℕ) (s : Text) → HasNoZero s → IsCString (write m p (c_string s)) p s
unfolding write c_string
write-IsCString m p [] h = ground arith
write-IsCString m p (b ∷ bs) h = (
  ground arith,
  h.0,
  IsCString-cong (write m p (b ∷ bs ++ 0 ∷ [])) (write m (p + 1) (bs ++ 0 ∷ [])) (p + 1) bs
      (λ a l. ground arith) (write-IsCString m (p + 1) bs h.1),
)

bytes_at-IsCString : (m : Memory) (p : ℕ) (s : Text) → IsCString m p s → bytes_at m p (length s) ≡ s
unfolding bytes_at
bytes_at-IsCString m p [] h = refl
bytes_at-IsCString m p (b ∷ bs) h = ground (arith, bytes_at-IsCString m (p + 1) bs h.2)

next_byte :
    (m : Memory) (p n : ℕ) (s : Text) → IsCString m (p + n + 1) s → IsCString m (p + (n + 1)) s
next_byte m p n s h = subst (λ a. IsCString m a s) (omega arith) h

scan-IsCString :
    (fuel : ℕ) (m : Memory) (p n : ℕ) (s : Text)
    → IsCString m (p + n) s
    → length s < fuel
    → scan fuel m p n ≡ some (n + length s)
unfolding scan
scan-IsCString zero m p n s h l = absurd (omega arith)
scan-IsCString (suc fuel) m p n [] h l = ground arith
scan-IsCString (suc fuel) m p n (b ∷ bs) h l =
    ground (arith, scan-IsCString fuel m p (n + 1) bs (next_byte m p n bs h.2) (omega arith))

scan_max-IsCString :
    (max : ℕ) (m : Memory) (p n : ℕ) (s : Text)
    → IsCString m (p + n) s
    → length s ≤ max
    → scan_max max m p n ≡ n + length s
unfolding scan_max
scan_max-IsCString zero m p n [] h l = omega arith
scan_max-IsCString zero m p n (b ∷ bs) h l = absurd (omega arith)
scan_max-IsCString (suc max) m p n [] h l = ground arith
scan_max-IsCString (suc max) m p n (b ∷ bs) h l =
    ground (arith, scan_max-IsCString max m p (n + 1) bs (next_byte m p n bs h.2) (omega arith))

at_start : (m : Memory) (p : ℕ) (s : Text) → IsCString m p s → IsCString m (p + 0) s
at_start m p s h = subst (λ a. IsCString m a s) (omega arith) h

pub gostring-IsCString :
    (fuel : ℕ) (m : Memory) (p : ℕ) (s : Text)
    → IsCString m p s
    → p ≢ 0
    → length s < fuel
    → gostring fuel m p ≡ some s
unfolding gostring
gostring-IsCString fuel m p s h q l =
    ground (arith, bytes_at-IsCString m p s h, scan-IsCString fuel m p 0 s (at_start m p s h) l)

-- A text that is laid out as a C string is read back by gostring and ptrToString, and by goString if it is not
-- longer than its maximum: for a text without zero bytes, at a pointer that is not NULL, and with more
-- fuel than the text has bytes.
pub gostring-c_string :
    (m : Memory) (p : ℕ) (s : Text) (fuel max : ℕ)
    → HasNoZero s
    → p ≢ 0
    → length s < fuel
    → length s ≤ max
    → (gostring fuel (write m p (c_string s)) p ≡ some s)
      × (go_string_within max (write m p (c_string s)) p ≡ s)
unfolding go_string_within
gostring-c_string m p s fuel max h q l k =
    let laid = write-IsCString m p s h in
    let start = at_start (write m p (c_string s)) p s laid in
    let bytes = bytes_at-IsCString (write m p (c_string s)) p s laid in
    (
      gostring-IsCString fuel (write m p (c_string s)) p s laid q l,
      ground (arith, bytes, scan_max-IsCString max (write m p (c_string s)) p 0 s start k),
    )
