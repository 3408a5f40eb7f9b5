-- ===== src/Sqlite3/Functions/RoundTrip.antt =====
-- sqlite3.go: a value that a function returns, passed to a function again.
use purego_gen.Prelude.{
  ℕ, ◌%◌, ◌^◌, ◌<◌, ◌≡◌, refl, if◌then◌else◌, true, false, [], ◌∷◌, none, some, arith,
}
use purego_gen.Prelude.Int.{ℤ, pos, bits, signed, to_int64}
use purego_gen.Prelude.Text.{codes}
use purego_gen.Go.Exec.{ok}
use purego_gen.Go.Reflect.{
  Kind, is, width, GoType, argument, Reflected, bool_value, int_value, uint_value, float_value,
  string_value, bytes_value, time_value,
}
use purego_gen.Sqlite3.Extern.{Extern, c_text}
use purego_gen.Sqlite3.TimeText.{parse_sqlite_time, format_sqlite_time}
use purego_gen.Sqlite3.Registry.{result}
use purego_gen.Sqlite3.Functions.{
  Reader, SqlResult, result_null, result_int64, result_double, result_text, result_blob,
  is_signed_int, is_unsigned_int, appended, unsupported_return, build_value_decoder,
  encode_result_value,
}
use purego_gen.Sqlite3.Bind.Binds.{HasNoNul, c_text-eq}
use purego_gen.Sqlite3.Functions.Types.{FitsSigned, IsSigned, IsUnsigned, HasValue, decoded}

convert_int_lem : (k : Kind) (z : ℤ) → FitsSigned k z → signed (width k) (bits (width k) z) ≡ z
unfolding bits
convert_int_lem Kind.int8 z h = ground arith
convert_int_lem _ z h = ground arith

convert_uint_lem : (k : Kind) (n : ℕ) → n < 2 ^ width k → n % 2 ^ width k ≡ n
convert_uint_lem Kind.int8 n h = omega arith
convert_uint_lem _ n h = omega arith

small_int64 : (n : ℕ) → n < 2 ^ 63 → to_int64 (pos n) ≡ pos n
unfolding bits
small_int64 n h = ground arith

-- No two cases of the switch fit one kind.
signed_only :
    (k : Kind)
    → IsSigned k
    → (is k Kind.string ≡ false)
      × (is k Kind.slice ≡ false)
      × (is k Kind.bool ≡ false)
      × (is_signed_int k ≡ true)
unfolding is_signed_int
signed_only Kind.int8 h = (refl, refl, refl, refl)
signed_only _ h = ground arith

unsigned_only :
    (k : Kind)
    → IsUnsigned k
    → (is k Kind.string ≡ false)
      × (is k Kind.slice ≡ false)
      × (is k Kind.bool ≡ false)
      × (is_signed_int k ≡ false)
      × (is_unsigned_int k ≡ true)
unfolding is_unsigned_int is_signed_int
unsigned_only Kind.uint8 h = (refl, refl, refl, refl, refl)
unsigned_only _ h = ground arith

-- The result that a value of a type is set to.
abbrev result_of : Reflected → SqlResult
unfolding format_sqlite_time
result_of (bool_value b) = result_int64 (if b then pos 1 else pos 0)
result_of (int_value k z) = result_int64 z
result_of (uint_value k n) = result_int64 (to_int64 (pos n))
result_of (float_value k n) = result_double n
result_of (string_value s) = result_text (c_text s)
result_of (bytes_value b) = result_blob (appended b)
result_of (time_value s) = result_text (c_text (format_sqlite_time s))
result_of v = result_null

encoded :
    (t : GoType) (v : Reflected) → HasValue t v → encode_result_value v none ≡ result (result_of v)
unfolding encode_result_value is_signed_int is_unsigned_int format_sqlite_time unsupported_return
encoded t (bool_value b) h = refl
encoded t (int_value k z) h =
    let (_, is_int, _) = h in
    let (no_string, no_slice, no_bool, int) = signed_only k is_int in ground (arith, int)
encoded t (uint_value k n) h =
    let (_, is_int, _) = h in
    let (no_string, no_slice, no_bool, no_int, unsigned) = unsigned_only k is_int in
    ground (arith, unsigned)
encoded t (float_value k n) h = ground arith
encoded t (string_value s) h = refl
encoded t (bytes_value b) h = refl
encoded t (time_value s) h = refl
encoded t _ h = absurd h

module _ {S V : Type 0} (x : Extern S) (c : Reader V) where
  -- Values that SQLite can hold as they are: an unsigned number below 2^63, a float32 that the conversion
  -- leaves alone, a text without a zero byte, bytes that are nil or not empty, a time that is read from its text.
  abbrev pub IsStorable : GoType → Reflected → Type 0
  IsStorable t (bool_value b) = Unit
  IsStorable t (int_value k z) = Unit
  IsStorable t (uint_value k n) = n < 2 ^ 63
  IsStorable t (float_value k n) = c.to_float32 n ≡ n
  IsStorable t (string_value s) = HasNoNul s
  IsStorable t (bytes_value none) = Unit
  IsStorable t (bytes_value (some [])) = ⊥
  IsStorable t (bytes_value (some (b ∷ bs))) = Unit
  IsStorable t (time_value s) =
      (t.kind ≡ Kind.struct)
      × HasNoNul (format_sqlite_time s)
      × (parse_sqlite_time x (format_sqlite_time s) (codes "Local") ≡ some s)
  IsStorable t v = ⊥

  -- An argument that holds what a result was set to.
  abbrev pub Holds : V → SqlResult → Type 0
  Holds raw result_null = Unit
  Holds raw (result_int64 z) = c.value_int64 raw ≡ z
  Holds raw (result_double n) = c.value_double raw ≡ n
  Holds raw (result_text s) = c.value_text raw ≡ s
  Holds raw (result_blob b) = c.value_blob raw ≡ b

  decode-result :
      (t : GoType) (v : Reflected) (r : SqlResult) (raw : V)
      → HasValue t v
      → IsStorable t v
      → encode_result_value v none ≡ result r
      → Holds raw r
      → decoded (build_value_decoder x c t) raw ≡ ok (argument t v)
  unfolding build_value_decoder encode_result_value
  decode-result t (bool_value true) r raw h w e g = ground arith
  decode-result t (bool_value false) r raw h w e g = ground arith
  decode-result t (int_value k z) r raw h w e g =
      let (_, is_int, _) = h in
      let (no_string, no_slice, no_bool, int) = signed_only k is_int in
      ground (arith, no_string, no_slice, no_bool, int, convert_int_lem k z)
  decode-result t (uint_value k n) r raw h w e g =
      let (_, is_int, _) = h in
      let (no_string, no_slice, no_bool, no_int, unsigned) = unsigned_only k is_int in
      ground (arith, no_string, no_slice, no_bool, no_int, small_int64 n w, convert_uint_lem k n)
  decode-result t (float_value k n) r raw h w e g = ground arith
  decode-result t (string_value s) r raw h w e g = ground (arith, c_text-eq s w)
  decode-result t (bytes_value none) r raw h w e g = ground arith
  decode-result t (bytes_value (some [])) r raw h w e g = absurd w
  decode-result t (bytes_value (some (b ∷ bs))) r raw h w e g = ground arith
  decode-result t (time_value s) r raw h w e g =
      ground (arith, c_text-eq (format_sqlite_time s) w.1)
  decode-result t _ r raw h w e g = absurd w

  -- What a function returns comes back unchanged as an argument: a value that has the type of a parameter, and
  -- that SQLite can hold as it is (a text without a zero byte, an unsigned number below 2^63, a float of 32 bits,
  -- bytes that are nil or not empty, a struct time that its text gives back), is encoded as a result without
  -- an error, and every value of SQLite that holds this result is decoded, without a panic, to the argument of that
  -- type with that value.
  pub decode-encode_result_value :
      (t : GoType) (v : Reflected)
      → HasValue t v
      → IsStorable t v
      → (r : SqlResult) × (encode_result_value v none ≡ result r)
        × ((raw : V) → Holds raw r → decoded (build_value_decoder x c t) raw ≡ ok (argument t v))
  decode-encode_result_value t v h w = (
    result_of v,
    encoded t v h,
    λ raw g. decode-result t v (result_of v) raw h w (encoded t v h) g,
  )
