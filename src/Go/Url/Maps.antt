-- ===== src/Go/Url/Maps.antt =====
-- The order of Go strings, and maps sorted by it: writes to different keys commute.
use purego_gen.Prelude.{
  ◌≡◌, refl, sym, ◌≢◌, inl, inr, true, false, List, [], ◌∷◌, arith, Bool-cases,
}
use purego_gen.Prelude.Text.{Text}
use purego_gen.Go.Url.{Values, text_lt, put}

pub text_lt_irrefl : (a : Text) → text_lt a a ≡ false
text_lt_irrefl [] = refl
text_lt_irrefl (x ∷ xs) = ground (arith, text_lt_irrefl xs)

pub text_lt_asymm : (a b : Text) → text_lt a b ≡ true → text_lt b a ≡ false
text_lt_asymm [] [] h = refl
text_lt_asymm [] (y ∷ ys) h = refl
text_lt_asymm (x ∷ xs) [] h = cc
text_lt_asymm (x ∷ xs) (y ∷ ys) h = ground (arith, text_lt_asymm xs ys)

pub text_lt_trans : (a b c : Text) → text_lt a b ≡ true → text_lt b c ≡ true → text_lt a c ≡ true
text_lt_trans [] [] c h k = cc
text_lt_trans [] (y ∷ ys) [] h k = cc
text_lt_trans [] (y ∷ ys) (z ∷ zs) h k = refl
text_lt_trans (x ∷ xs) [] c h k = cc
text_lt_trans (x ∷ xs) (y ∷ ys) [] h k = cc
text_lt_trans (x ∷ xs) (y ∷ ys) (z ∷ zs) h k = ground (arith, text_lt_trans xs ys zs)

pub text_lt_total : (a b : Text) → text_lt a b ≡ false → text_lt b a ≡ false → a ≡ b
text_lt_total [] [] h k = refl
text_lt_total [] (y ∷ ys) h k = cc
text_lt_total (x ∷ xs) [] h k = cc
text_lt_total (x ∷ xs) (y ∷ ys) h k = ground (arith, text_lt_total xs ys)

-- Writes to two keys, the smaller first or last.
put-put_lt :
    (k j : Text) (v w : List Text) (m : Values)
    → text_lt k j ≡ true
    → put k v (put j w m) ≡ put j w (put k v m)
unfolding put
put-put_lt k j v w [] h = ground (arith, text_lt_asymm k j)
put-put_lt k j v w ((i, u) ∷ m) h = ground (
  arith,
  text_lt_asymm k j,
  text_lt_trans k j i,
  text_lt_trans k i j,
  text_lt_trans i k j,
  text_lt_total k i,
  text_lt_total j i,
  text_lt_asymm i j,
  text_lt_asymm i k,
  text_lt_irrefl k,
  text_lt_irrefl j,
  put-put_lt k j v w m h,
)

pub put-put :
    (k j : Text) (v w : List Text) (m : Values) → k ≢ j → put k v (put j w m) ≡ put j w (put k v m)
put-put k j v w m n = elim (Bool-cases (text_lt k j)) [
  | inl h ↦ put-put_lt k j v w m h
  | inr h ↦ elim (Bool-cases (text_lt j k)) [
    | inl g ↦ sym (put-put_lt j k w v m g)
    | inr g ↦ absurd (n (text_lt_total k j h g))
  ]
]
