-- ===== src/Go/Url.antt =====
-- What the driver uses of Go's net/url and strconv: query strings, maps from keys to values, and
-- decimal numbers. A url.Values is kept sorted by its keys, so that equal maps are equal; the order in
-- which Go ranges over a map is chosen elsewhere.
pub mod Maps
use purego_gen.Prelude.{
  ℕ, zero, suc, ◌+◌, ◌-◌, ◌*◌, ◌/◌, ◌%◌, ◌≤◌, ◌<◌, ◌≡◌, refl, ◌≢◌, Bool, true, false, ◌&&◌, ◌||◌,
  List, [], ◌∷◌, ◌++◌, Option, none, some, arith, ltb, leb, ◌==◌, if◌then◌else◌,
}
use purego_gen.Prelude.Int.{ℤ, pos, negsuc, sub_ℕ}
use purego_gen.Prelude.Text.{Text, codes, is_empty, text_eq, text_eq_iff}

abbrev pub Values : Type 0
Values = List (Text × List Text)

-- The order of Go strings, by their bytes.
abbrev pub text_lt : Text → Text → Bool
text_lt [] [] = false
text_lt [] (y ∷ ys) = true
text_lt (x ∷ xs) [] = false
text_lt (x ∷ xs) (y ∷ ys) = ltb x y || (x == y && text_lt xs ys)

-- m[key] = values.
unfoldable pub put : Text → List Text → Values → Values
put k vs [] = (k, vs) ∷ []
put k vs ((j, ws) ∷ m) =
    if text_lt k j
    then (k, vs) ∷ (j, ws) ∷ m
    else if text_lt j k
    then (j, ws) ∷ put k vs m
    else (k, vs) ∷ m

-- m[key] = append(m[key], value).
append_value : Text → Text → Values → Values
append_value k v [] = (k, v ∷ []) ∷ []
append_value k v ((j, ws) ∷ m) =
    if text_lt k j
    then (k, v ∷ []) ∷ (j, ws) ∷ m
    else if text_lt j k
    then (j, ws) ∷ append_value k v m
    else (j, ws ++ v ∷ []) ∷ m

-- The text before the first byte `b`, and the text behind it, if there is one.
abbrev cut : ℕ → Text → Text × Option Text
cut b [] = ([], none)
cut b (c ∷ cs) = let rest = cut b cs in if c == b then ([], some cs) else (c ∷ rest.0, rest.1)

abbrev hex_digit : ℕ → Option ℕ
hex_digit c =
    if leb b'0' c && leb c b'9'
    then some (c - b'0')
    else if leb b'a' c && leb c b'f'
    then some (c - b'a' + 10)
    else if leb b'A' c && leb c b'F'
    then some (c - b'A' + 10)
    else none

abbrev unescape_with : Option ℕ → Option ℕ → Option Text → Option Text
unescape_with (some h) (some l) (some rest) = some ((16 * h + l) ∷ rest)
unescape_with _ _ _ = none

abbrev prepend : ℕ → Option Text → Option Text
prepend c none = none
prepend c (some t) = some (c ∷ t)

-- QueryUnescape; `none` is its error.
query_unescape : Text → Option Text
query_unescape [] = some []
query_unescape (c ∷ []) = if c == b'%' then none else some ((if c == b'+' then b' ' else c) ∷ [])
query_unescape (c ∷ a ∷ []) =
    let rest = query_unescape (a ∷ []) in
    if c == b'%' then none else prepend (if c == b'+' then b' ' else c) rest
query_unescape (c ∷ a ∷ b ∷ t) =
    let plain = query_unescape (a ∷ b ∷ t) in
    let rest = query_unescape t in
    if c == b'%'
    then unescape_with (hex_digit a) (hex_digit b) rest
    else prepend (if c == b'+' then b' ' else c) plain

-- The parts between the bytes `&`.
split_amp : Text → List Text
split_amp [] = [] ∷ []
split_amp (c ∷ cs) = let rest = split_amp cs in if c == b'&' then [] ∷ rest else add_first c rest
  where
    add_first : ℕ → List Text → List Text
    add_first c [] = (c ∷ []) ∷ []
    add_first c (t ∷ ts) = (c ∷ t) ∷ ts

abbrev pub has_byte : ℕ → Text → Bool
has_byte b [] = false
has_byte b (c ∷ cs) = c == b || has_byte b cs

abbrev or_nil : Option Text → Text
or_nil none = []
or_nil (some t) = t

abbrev add_pair : Option Text → Option Text → Values → Option Values
add_pair (some k) (some v) m = some (append_value k v m)
add_pair _ _ m = none

-- One part of a query: an empty one is skipped, one with a semicolon is an error.
abbrev parse_part : Text → Values → Option Values
parse_part part m =
    if is_empty part
    then some m
    else if has_byte b';' part
    then none
    else let (key, value) = cut b'=' part in
      add_pair (query_unescape key) (query_unescape (or_nil value)) m

abbrev parse_next : Option Values → (Values → Option Values) → Option Values
parse_next none f = none
parse_next (some m) f = f m

parse_parts : List Text → Values → Option Values
parse_parts [] m = some m
parse_parts (p ∷ ps) m = parse_next (parse_part p m) (λ m'. parse_parts ps m')

-- ParseQuery; `none` stands for its error, with which the driver drops the map.
unfoldable pub parse_query : Text → Option Values
unfolding parse_parts split_amp append_value query_unescape
parse_query q = parse_parts (split_amp q) []

abbrev is_unreserved : ℕ → Bool
is_unreserved c =
    (leb b'a' c && leb c b'z')
    || (leb b'A' c && leb c b'Z')
    || (leb b'0' c && leb c b'9')
    || c == b'-'
    || c == b'_'
    || c == b'.'
    || c == b'~'

abbrev upper_hex : ℕ → ℕ
upper_hex n = if ltb n 10 then b'0' + n else b'A' + (n - 10)

unfoldable query_escape : Text → Text
query_escape [] = []
query_escape (c ∷ cs) =
    let rest = query_escape cs in
    if is_unreserved c
    then c ∷ rest
    else if c == b' '
    then b'+' ∷ rest
    else b'%' ∷ upper_hex (c / 16) ∷ upper_hex (c % 16) ∷ rest

abbrev encode_pairs : Text → List Text → List Text
encode_pairs k [] = []
encode_pairs k (v ∷ vs) = (query_escape k ++ b'=' ∷ query_escape v) ∷ encode_pairs k vs

abbrev all_pairs : Values → List Text
all_pairs [] = []
all_pairs ((k, vs) ∷ m) = encode_pairs k vs ++ all_pairs m

abbrev join_amp : List Text → Text
join_amp [] = []
join_amp (t ∷ []) = t
join_amp (t ∷ u ∷ ts) = t ++ (b'&' ∷ join_amp (u ∷ ts))

-- Encode goes through the keys in their order.
unfoldable pub encode : Values → Text
unfolding query_escape
encode m = join_amp (all_pairs m)

abbrev digits_value : ℕ → Text → Option ℕ
digits_value acc [] = some acc
digits_value acc (c ∷ cs) =
    let rest = digits_value (acc * 10 + (c - b'0')) cs in
    if leb b'0' c && leb c b'9' then rest else none

abbrev unsigned_value : Text → Option ℕ
unsigned_value [] = none
unsigned_value (c ∷ cs) = digits_value 0 (c ∷ cs)

abbrev in_range : ℕ → (ℕ → ℤ) → Option ℕ → Option ℤ
in_range most f none = none
in_range most f (some n) = if leb n most then some (f n) else none

-- Atoi; `none` is its error, for a text that is no number or lies outside of int64.
unfoldable pub atoi : Text → Option ℤ
atoi [] = none
atoi (c ∷ cs) =
    if c == b'-'
    then in_range 9223372036854775808 (λ n. sub_ℕ 0 n) (unsigned_value cs)
    else if c == b'+'
    then in_range 9223372036854775807 pos (unsigned_value cs)
    else in_range 9223372036854775807 pos (unsigned_value (c ∷ cs))
