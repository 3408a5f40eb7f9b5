-- ===== src/Sqlite3/Functions/Tests.antt =====
-- Functions compiled and called on arguments that hold what a result was set to.
use purego_gen.Prelude.{ℕ, ◌≡◌, refl, true, false, List, [], ◌∷◌, Option, none, some, arith}
use purego_gen.Prelude.Int.{ℤ, pos, negsuc, bits}
use purego_gen.Prelude.Text.{Text, codes}
use purego_gen.Go.{bad_conn, errorf}
use purego_gen.Go.Exec.{ok, panics}
use purego_gen.Go.Reflect.{
  Kind, GoType, FuncType, Argument, argument, Reflected, int_value, string_value, error_value,
}
use purego_gen.Sqlite3.Tests.World.{world}
use purego_gen.Sqlite3.Registry.{ScalarFunction, result, result_error, call_scalar}
use purego_gen.Sqlite3.Extern.{c_text}
use purego_gen.Sqlite3.Functions.{
  Reader, SqlResult, result_int64, result_double, result_text, result_blob, func, is_unsigned_int,
  build_value_decoder, encode_result_value, convert_int, encode_two, unsupported_return,
  compile_scalar_function, build_args,
}
use purego_gen.Sqlite3.Functions.Types.{decoded}
use purego_gen.Sqlite3.Functions.Calls.{struct_error_panics}
use purego_gen.Sqlite3.Functions.RoundTrip.{Holds, decode-encode_result_value}

abbrev text_of : SqlResult → Text
text_of (result_text s) = s
text_of r = []

abbrev int64_of : SqlResult → ℤ
int64_of (result_int64 z) = z
int64_of r = pos 0

abbrev double_of : SqlResult → ℕ
double_of (result_double n) = n
double_of r = 0

abbrev blob_of : SqlResult → Option Text
blob_of (result_blob b) = b
blob_of r = none

abbrev reader : Reader SqlResult
reader = record {
  value_text = text_of;
  value_int64 = int64_of;
  value_double = double_of;
  value_blob = blob_of;
  to_float32 = λ n. n;
}

abbrev type_of_kind : Kind → GoType
type_of_kind k = record {
  name = [];
  kind = k;
  elem = Kind.invalid;
  elem_named = false;
  is_time = false;
  is_error = false;
}

-- func(int8, string) (string, Failure), with `type Failure struct{…}`.
abbrev failing_type : FuncType
failing_type = record {
  variadic = false;
  ins = type_of_kind Kind.int8 ∷ type_of_kind Kind.string ∷ [];
  outs = type_of_kind Kind.string ∷ record (type_of_kind Kind.struct) { is_error = true } ∷ [];
}

abbrev failing : List Argument → Option (List Reflected)
failing vs = some (string_value (codes "done") ∷ error_value bad_conn ∷ [])

abbrev arguments : List SqlResult
arguments = result_int64 (pos 300) ∷ result_text (codes "a") ∷ []

abbrev compiled : ScalarFunction SqlResult SqlResult
compiled = record {
  call = failing;
  args =
      (λ v. ok (convert_int (type_of_kind Kind.int8) (reader.value_int64 v)))
      ∷ (λ v. ok (argument (type_of_kind Kind.string) (string_value (reader.value_text v))))
      ∷ [];
  return_func = encode_two;
}

-- 300 is 44 as an int8.
abbrev decoded_arguments : List Argument
decoded_arguments =
    argument (type_of_kind Kind.int8) (int_value Kind.int8 (pos 44))
    ∷ argument (type_of_kind Kind.string) (string_value (codes "a"))
    ∷ []

struct_error_panics_example :
    (s : ScalarFunction SqlResult SqlResult) × (compile_scalar_function world reader
        (func failing_type failing)
      ≡ ok s)
    × (call_scalar (some s) arguments ≡ panics)
unfolding bits build_args
struct_error_panics_example =
    struct_error_panics world reader failing_type failing arguments (type_of_kind Kind.string)
      (record (type_of_kind Kind.struct) { is_error = true }) (string_value (codes "done")) bad_conn
      compiled.args decoded_arguments refl refl refl refl refl refl refl

decode-encode_result_value_example :
    (r : SqlResult) × (encode_result_value (int_value Kind.int8 (negsuc 4)) none ≡ result r)
    × ((raw : SqlResult)
        → Holds world reader raw r
        → decoded (build_value_decoder world reader (type_of_kind Kind.int8)) raw
          ≡ ok (argument (type_of_kind Kind.int8) (int_value Kind.int8 (negsuc 4))))
decode-encode_result_value_example =
    decode-encode_result_value world reader (type_of_kind Kind.int8)
      (int_value Kind.int8 (negsuc 4)) (refl, tt, omega arith) tt

-- A nil value of an interface type is an error, and an unsigned number above 2^63 turns negative.
nil_any_fails :
    encode_result_value Reflected.nil_interface none
    ≡ result_error (errorf "unsupported Go return type" [])
unfolding encode_result_value unsupported_return
nil_any_fails = refl

large_unsigned_wraps :
    encode_result_value (Reflected.uint_value Kind.uint64 18446744073709551615) none
    ≡ result (result_int64 (negsuc 0))
unfolding encode_result_value bits is_unsigned_int
large_unsigned_wraps = refl

-- A parameter of type []MyByte is accepted, and its decoder panics.
abbrev my_bytes : GoType
my_bytes = record (type_of_kind Kind.slice) { elem = Kind.uint8; elem_named = true }

my_bytes_panics : decoded (build_value_decoder world reader my_bytes) (result_blob none) ≡ panics
unfolding build_value_decoder
my_bytes_panics = refl

-- A text result ends at its first zero byte.
text_is_cut :
    encode_result_value (string_value (98 ∷ 0 ∷ 99 ∷ [])) none ≡ result (result_text (98 ∷ []))
unfolding encode_result_value c_text
text_is_cut = refl
