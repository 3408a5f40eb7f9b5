-- ===== src/Sqlite3/TimeText.antt =====
-- sqlite3.go: times as SQLite keeps them, in text columns.
use purego_gen.Prelude.{
  ℕ, zero, suc, ◌-◌, ◌/◌, ◌%◌, Bool, ◌&&◌, ◌||◌, List, [], ◌∷◌, ◌++◌, Option, none, some, leb, ◌==◌,
  if◌then◌else◌,
}
use purego_gen.Prelude.Int.{ℤ, pos, negsuc}
use purego_gen.Prelude.Text.{has_prefix, Text, codes, is_empty, text_eq}
use purego_gen.Prelude.Decimal.{print, pad}
use purego_gen.Go.{Time}
use purego_gen.Sqlite3.Extern.{Extern}

-- Text functions of the package strings, on ASCII text.
abbrev to_upper_byte : ℕ → ℕ
to_upper_byte c = if leb b'a' c && leb c b'z' then c - 32 else c

abbrev pub to_upper : Text → Text
to_upper [] = []
to_upper (c ∷ cs) = to_upper_byte c ∷ to_upper cs

abbrev is_space : ℕ → Bool
is_space c = (leb 9 c && leb c 13) || c == 32

abbrev trim_left : Text → Text
trim_left [] = []
trim_left (c ∷ cs) = let rest = trim_left cs in if is_space c then rest else c ∷ cs

abbrev trim_right : Text → Text
trim_right [] = []
trim_right (c ∷ cs) =
    let rest = trim_right cs in if is_space c && is_empty rest then [] else c ∷ rest

abbrev trim_space : Text → Text
trim_space t = trim_right (trim_left t)

abbrev contains : Text → Text → Bool
contains [] p = has_prefix [] p
contains (c ∷ cs) p = has_prefix (c ∷ cs) p || contains cs p

-- The part before the first occurrence of a byte.
abbrev before : ℕ → Text → Text
before b [] = []
before b (c ∷ cs) = if c == b then [] else c ∷ before b cs

unfoldable pub normalize_decl_type : Text → Text
normalize_decl_type value =
    let trimmed = trim_space value in
    if is_empty trimmed then [] else trim_space (before b'(' (to_upper trimmed))

unfoldable pub looks_like_time_type : Text → Bool
unfolding normalize_decl_type
looks_like_time_type value =
    let normalized = normalize_decl_type value in
    text_eq normalized (codes "DATE")
    || text_eq normalized (codes "DATETIME")
    || text_eq normalized (codes "TIMESTAMP")

abbrev trim_zeros : Text → Text
trim_zeros [] = []
trim_zeros (c ∷ cs) =
    let rest = trim_zeros cs in if c == b'0' && is_empty rest then [] else c ∷ rest

-- The elements 2006, 01, .999999999 and -07:00 of a layout.
fraction : ℕ → Text
fraction zero = []
fraction (suc n) = b'.' ∷ trim_zeros (pad 9 (print (suc n)))

clock_offset : ℕ → Text
clock_offset m = pad 2 (print (m / 60)) ++ b':' ∷ pad 2 (print (m % 60))

zone_offset : ℤ → Text
unfolding clock_offset
zone_offset (pos m) = b'+' ∷ clock_offset m
zone_offset (negsuc m) = b'-' ∷ clock_offset (suc m)

-- "2006-01-02 15:04:05.999999999-07:00"
unfoldable pub format_sqlite_time : Time → Text
unfolding fraction zone_offset
format_sqlite_time t =
    pad 4 (print t.year)
    ++ (b'-' ∷ pad 2 (print t.month)
        ++ (b'-' ∷ pad 2 (print t.day)
            ++ (b' ' ∷ pad 2 (print t.hour)
                ++ (b':' ∷ pad 2 (print t.minute)
                    ++ (b':' ∷ pad 2 (print t.second)
                        ++ (fraction t.nanosecond ++ zone_offset t.offset))))))

abbrev time_layouts : List Text
time_layouts =
    codes "2006-01-02T15:04:05.999999999Z07:00"
    ∷ codes "2006-01-02 15:04:05.999999999-07:00"
    ∷ codes "2006-01-02 15:04:05.999999999"
    ∷ codes "2006-01-02 15:04:05"
    ∷ codes "2006-01-02"
    ∷ []

abbrev has_zone : Text → Bool
has_zone layout = contains layout (codes "Z07:00") || contains layout (codes "-07:00")

module _ {S : Type 0} (x : Extern S) where
  abbrev parse_layout : Text → Text → Text → Option Time
  parse_layout layout value location =
      if has_zone layout
      then x.time_parse layout none value
      else x.time_parse layout (some location) value

  abbrev or_next : Option Time → Option Time → Option Time
  or_next none rest = rest
  or_next (some t) rest = some t

  abbrev try_layouts : List Text → Text → Text → Option Time
  try_layouts [] value location = none
  try_layouts (layout ∷ layouts) value location =
      or_next (parse_layout layout value location) (try_layouts layouts value location)

  unfoldable pub parse_sqlite_time : Text → Text → Option Time
  parse_sqlite_time value location = try_layouts time_layouts value location
