-- ===== src/Sqlite3/Functions.antt =====
-- sqlite3.go: how a Go function becomes an SQL function. Its type gives a decoder for every argument and an
-- encoder for the results, or RegisterFunc refuses it.
pub mod Types
pub mod Calls
pub mod RoundTrip
pub mod Tests
use purego_gen.Prelude.{
  ℕ, ◌+◌, ◌%◌, ◌^◌, Bool, true, false, not, ◌&&◌, ◌||◌, List, [], ◌∷◌, Option, none, some, ◌==◌,
  if◌then◌else◌,
}
use purego_gen.Prelude.Int.{ℤ, pos, negsuc, bits, signed, to_int64, ◌==ℤ◌}
use purego_gen.Prelude.Text.{Text, codes}
use purego_gen.Go.{Time, GoError, errorf, wrap, num, str, type_id}
use purego_gen.Go.Exec.{Outcome, ok, err, panics, diverges}
use purego_gen.Go.Reflect.{
  Kind, is, width, GoType, FuncType, Argument, argument, Reflected, bool_value, int_value,
  uint_value, float_value, string_value, bytes_value, time_value, nil_interface, interface_of,
  nil_pointer, pointer_to, opaque, error_value, is_nil, as_error,
}
use purego_gen.Sqlite3.Extern.{Extern, c_text}
use purego_gen.Sqlite3.TimeText.{parse_sqlite_time, format_sqlite_time}
use purego_gen.Sqlite3.Registry.{
  CallResult, result, result_error, ScalarFunction, RegistryEnv, Creator, register_func,
}

-- sqlite3_value_text, _int64, _double and _blob of an argument, and the conversion to float32.
pub record Reader (V : Type 0) : Type 0 where
  pub value_text : V → Text
  pub value_int64 : V → ℤ
  pub value_double : V → ℕ
  pub value_blob : V → Option Text
  pub to_float32 : ℕ → ℕ

-- What the C functions sqlite3_result_null, _int64, _double, _text and _blob are given; a text is a C string. (A
-- message of ResultError is cut at a zero byte likewise, but stands here as the error that it is of.)
pub data SqlResult : Type 0 where
  result_null : SqlResult
  result_int64 : ℤ → SqlResult
  result_double : ℕ → SqlResult
  result_text : Text → SqlResult
  result_blob : Option Text → SqlResult

-- What RegisterFunc is given: a function, with its calls, or a value of another type.
pub data Registered : Type 0 where
  not_func : ℕ → Registered
  func : FuncType → (List Argument → Option (List Reflected)) → Registered

unfoldable pub is_signed_int : Kind → Bool
is_signed_int Kind.int = true
is_signed_int Kind.int8 = true
is_signed_int Kind.int16 = true
is_signed_int Kind.int32 = true
is_signed_int Kind.int64 = true
is_signed_int k = false

unfoldable pub is_unsigned_int : Kind → Bool
is_unsigned_int Kind.uint = true
is_unsigned_int Kind.uint8 = true
is_unsigned_int Kind.uint16 = true
is_unsigned_int Kind.uint32 = true
is_unsigned_int Kind.uint64 = true
is_unsigned_int k = false

-- reflect.Value.Convert to the type of a parameter. From int64 and from uint64 it keeps the low bits; []byte
-- cannot be converted to a slice of another type than uint8, and that panics.
abbrev pub convert_int : GoType → ℤ → Argument
convert_int t z = argument t (int_value t.kind (signed (width t.kind) (bits (width t.kind) z)))

abbrev pub convert_uint : GoType → ℤ → Outcome Argument
convert_uint t (pos n) = ok (argument t (uint_value t.kind (n % 2 ^ width t.kind)))
convert_uint t (negsuc n) =
    err (errorf "negative value %d for unsigned integer" (num (negsuc n) ∷ []))

abbrev pub convert_bytes : GoType → Option Text → Outcome Argument
convert_bytes t b = if t.elem_named then panics else ok (argument t (bytes_value b))

-- reflect.ValueOf of a time.Time, which the parameter is.
abbrev pub parsed_time : GoType → Text → Option Time → Outcome Argument
parsed_time t text (some s) = ok (argument t (time_value s))
parsed_time t text none = err (errorf "cannot parse %q as time.Time" (str text ∷ []))

module _ {V : Type 0} where
  abbrev pub args_next :
      ℕ
      → Outcome (V → Outcome Argument)
      → Outcome (List (V → Outcome Argument))
      → Outcome (List (V → Outcome Argument))
  args_next index (ok d) (ok ds) = ok (d ∷ ds)
  args_next index (ok d) r = r
  args_next index (err e) r = err (wrap "sqlite3: argument %d: %w" (num (pos index) ∷ []) e)
  args_next index panics r = panics
  args_next index diverges r = diverges

module _ {S V : Type 0} (x : Extern S) (c : Reader V) where
  abbrev pub convert_float : GoType → ℕ → Argument
  convert_float t n =
      argument t (float_value t.kind (if is t.kind Kind.float32 then c.to_float32 n else n))

  unfoldable pub build_value_decoder : GoType → Outcome (V → Outcome Argument)
  unfolding is_signed_int is_unsigned_int
  build_value_decoder target =
      if is target.kind Kind.string
      then ok (λ v. ok (argument target (string_value (c.value_text v))))
      else if is target.kind Kind.slice && is target.elem Kind.uint8
      then ok (λ v. convert_bytes target (c.value_blob v))
      else if is target.kind Kind.bool
      then ok (λ v. ok (argument target (bool_value (not (c.value_int64 v ==ℤ pos 0)))))
      else if is_signed_int target.kind
      then ok (λ v. ok (convert_int target (c.value_int64 v)))
      else if is_unsigned_int target.kind
      then ok (λ v. convert_uint target (c.value_int64 v))
      else if is target.kind Kind.float32 || is target.kind Kind.float64
      then ok (λ v. ok (convert_float target (c.value_double v)))
      else if target.is_time
      then ok (λ v.
        let text = c.value_text v in
        parsed_time target text (parse_sqlite_time x text (codes "Local")))
      else err (errorf "unsupported function argument type %s" (str target.name ∷ []))

  -- The loop over the parameters; the first error ends it.
  unfoldable pub build_args : ℕ → List GoType → Outcome (List (V → Outcome Argument))
  unfolding build_value_decoder
  build_args index [] = ok []
  build_args index (t ∷ ts) = args_next index (build_value_decoder t) (build_args (index + 1) ts)

unfoldable pub unsupported_return : CallResult SqlResult
unsupported_return = result_error (errorf "unsupported Go return type" [])

-- append([]byte(nil), value.Bytes()...) is nil when there are no bytes.
abbrev pub appended : Option Text → Option Text
appended none = none
appended (some []) = none
appended (some (b ∷ bs)) = some (b ∷ bs)

-- The switch on the kind. ResultText passes -1 for the length of the text.
abbrev pub encode_kind : Reflected → CallResult SqlResult
unfolding unsupported_return is_signed_int is_unsigned_int format_sqlite_time c_text
encode_kind (string_value s) = result (result_text (c_text s))
encode_kind (bytes_value b) = result (result_blob (appended b))
encode_kind (bool_value b) = result (result_int64 (if b then pos 1 else pos 0))
encode_kind (int_value k z) =
    if is_signed_int k then result (result_int64 z) else unsupported_return
encode_kind (uint_value k n) =
    if is_unsigned_int k then result (result_int64 (to_int64 (pos n))) else unsupported_return
encode_kind (float_value k n) =
    if is k Kind.float32 || is k Kind.float64 then result (result_double n) else unsupported_return
encode_kind (time_value t) = result (result_text (c_text (format_sqlite_time t)))
encode_kind v = unsupported_return

abbrev pub encode_pointer : Reflected → CallResult SqlResult
unfolding encode_kind
encode_pointer nil_pointer = result result_null
encode_pointer (pointer_to v) = encode_kind v
encode_pointer v = encode_kind v

abbrev pub encode_valid : Reflected → CallResult SqlResult
unfolding encode_pointer
encode_valid Reflected.invalid = result result_null
encode_valid (interface_of v) = encode_pointer v
encode_valid v = encode_pointer v

unfoldable pub encode_result_value : Reflected → Option GoError → CallResult SqlResult
unfolding encode_valid
encode_result_value v (some e) = result_error e
encode_result_value v none = encode_valid v

-- results[0] of a function with one result, and the pair of a function with two.
abbrev pub encode_one : List Reflected → Outcome (CallResult SqlResult)
unfolding encode_result_value
encode_one [] = panics
encode_one (v ∷ vs) = ok (encode_result_value v none)

abbrev pub encode_failed : Reflected → Option GoError → Outcome (CallResult SqlResult)
unfolding encode_result_value
encode_failed v none = panics
encode_failed v (some e) = ok (encode_result_value v (some e))

abbrev pub encode_pair : Reflected → Reflected → Option Bool → Outcome (CallResult SqlResult)
unfolding encode_failed as_error
encode_pair v w none = panics
encode_pair v w (some true) = ok (encode_result_value v none)
encode_pair v w (some false) = encode_failed v (as_error w)

abbrev pub encode_two : List Reflected → Outcome (CallResult SqlResult)
unfolding encode_pair is_nil
encode_two (v ∷ w ∷ vs) = encode_pair v w (is_nil w)
encode_two vs = panics

abbrev pub encoder_of : List GoType → Outcome (List Reflected → Outcome (CallResult SqlResult))
unfolding encode_one encode_two
encoder_of [] = ok (λ vs. ok (result result_null))
encoder_of (a ∷ []) = ok encode_one
encoder_of (a ∷ b ∷ []) =
    if b.is_error
    then ok encode_two
    else err (errorf "sqlite3: second return value must be error" [])
encoder_of (a ∷ b ∷ ts) =
    err (errorf "sqlite3: functions may return at most value or value,error" [])

unfoldable pub build_return_encoder :
    FuncType → Outcome (List Reflected → Outcome (CallResult SqlResult))
unfolding encoder_of
build_return_encoder t = encoder_of t.outs

module _ {V : Type 0} where
  abbrev pub compiled_with :
      (List Argument → Option (List Reflected))
      → Outcome (List (V → Outcome Argument))
      → Outcome (List Reflected → Outcome (CallResult SqlResult))
      → Outcome (ScalarFunction V SqlResult)
  compiled_with f (ok ds) (ok enc) = ok (record { call = f; args = ds; return_func = enc })
  compiled_with f (ok ds) (err e) = err e
  compiled_with f (ok ds) panics = panics
  compiled_with f (ok ds) diverges = diverges
  compiled_with f (err e) r = err e
  compiled_with f panics r = panics
  compiled_with f diverges r = diverges

module _ {S V : Type 0} (x : Extern S) (c : Reader V) where
  unfoldable pub compile_scalar_function : Registered → Outcome (ScalarFunction V SqlResult)
  unfolding build_args build_return_encoder
  compile_scalar_function (not_func t) =
      err (errorf "sqlite3: RegisterFunc expects a function, got %T" (type_id t ∷ []))
  compile_scalar_function (func t f) =
      if t.variadic
      then err (errorf "sqlite3: variadic functions are not supported" [])
      else compiled_with f (build_args x c 0 t.ins) (build_return_encoder t)

  -- RegisterFunc.
  unfoldable pub register_go_func :
      Creator S
      → Text
      → Registered
      → Bool
      → RegistryEnv V SqlResult S
      → Outcome (Unit {0}) × RegistryEnv V SqlResult S
  unfolding register_func compile_scalar_function
  register_go_func y name fn is_pure e =
      register_func x y name (compile_scalar_function fn) is_pure e
