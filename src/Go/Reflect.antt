-- ===== src/Go/Reflect.antt =====
-- What the drivers use of the package reflect: the kinds of types, and values with their kinds.
use purego_gen.Prelude.{
  ℕ, Bool, true, false, List, [], ◌∷◌, Option, none, some, ◌≡◌, refl, sym, ap, ◌∙◌, ◌==◌, ==_iff,
  get_elem?, if◌then◌else◌,
}
use purego_gen.Prelude.Int.{ℤ}
use purego_gen.Prelude.Text.{Text}
use purego_gen.Go.{Time, GoError}

-- reflect.Kind
pub data Kind : Type 0 where
  invalid bool int int8 int16 int32 int64 : Kind
  uint uint8 uint16 uint32 uint64 uintptr : Kind
  float32 float64 complex64 complex128 : Kind
  array chan func interface map pointer slice string struct unsafe_pointer : Kind

-- The number of a kind, by which the constants of the package are told apart.
abbrev pub number : Kind → ℕ
number Kind.invalid = 0
number Kind.bool = 1
number Kind.int = 2
number Kind.int8 = 3
number Kind.int16 = 4
number Kind.int32 = 5
number Kind.int64 = 6
number Kind.uint = 7
number Kind.uint8 = 8
number Kind.uint16 = 9
number Kind.uint32 = 10
number Kind.uint64 = 11
number Kind.uintptr = 12
number Kind.float32 = 13
number Kind.float64 = 14
number Kind.complex64 = 15
number Kind.complex128 = 16
number Kind.array = 17
number Kind.chan = 18
number Kind.func = 19
number Kind.interface = 20
number Kind.map = 21
number Kind.pointer = 22
number Kind.slice = 23
number Kind.string = 24
number Kind.struct = 25
number Kind.unsafe_pointer = 26

abbrev pub is : Kind → Kind → Bool
is k j = number k == number j

-- Bits of a number; int and uint have 64, as on the platforms that the library is loaded on.
abbrev pub width : Kind → ℕ
width Kind.int8 = 8
width Kind.int16 = 16
width Kind.int32 = 32
width Kind.uint8 = 8
width Kind.uint16 = 16
width Kind.uint32 = 32
width k = 64

-- What the drivers ask of a type: its kind, that of its elements where it is a slice, whether that is a
-- type with a name other than uint8, whether it is time.Time, whether it implements error, and how it is printed.
pub record GoType : Type 0 where
  pub name : Text
  pub kind : Kind
  pub elem : Kind
  pub elem_named : Bool
  pub is_time : Bool
  pub is_error : Bool

-- The type of a function.
pub record FuncType : Type 0 where
  pub variadic : Bool
  pub ins : List GoType
  pub outs : List GoType

-- A value. A float is its bit pattern as a float64, a nil slice is `bytes none`, `error_value` is a
-- struct whose type implements error, and `opaque k b` a value of any other kind, nil if `b`.
pub data Reflected : Type 0 where
  invalid : Reflected
  bool_value : Bool → Reflected
  int_value : Kind → ℤ → Reflected
  uint_value : Kind → ℕ → Reflected
  float_value : Kind → ℕ → Reflected
  string_value : Text → Reflected
  bytes_value : Option Text → Reflected
  time_value : Time → Reflected
  error_value : GoError → Reflected
  nil_interface : Reflected
  interface_of : Reflected → Reflected
  nil_pointer : Reflected
  pointer_to : Reflected → Reflected
  opaque : Kind → Bool → Reflected

-- What a function is called with: a value, and its type.
pub record Argument : Type 0 where
  pub type : GoType
  pub value : Reflected

abbrev pub argument : GoType → Reflected → Argument
argument t v = record { type = t; value = v }

abbrev can_be_nil : Kind → Bool
can_be_nil Kind.chan = true
can_be_nil Kind.func = true
can_be_nil Kind.map = true
can_be_nil Kind.slice = true
can_be_nil Kind.unsafe_pointer = true
can_be_nil k = false

-- IsNil panics on a value whose kind has no nil.
unfoldable pub is_nil : Reflected → Option Bool
is_nil nil_interface = some true
is_nil (interface_of v) = some false
is_nil nil_pointer = some true
is_nil (pointer_to v) = some false
is_nil (bytes_value none) = some true
is_nil (bytes_value (some t)) = some false
is_nil (opaque k b) = if can_be_nil k then some b else none
is_nil v = none

-- Interface().(error), on a value that is not nil.
unfoldable pub as_error : Reflected → Option GoError
as_error (error_value e) = some e
as_error (interface_of v) = as_error v
as_error (pointer_to (error_value e)) = some e
as_error v = none

abbrev all_kinds : List Kind
all_kinds =
    Kind.invalid ∷ Kind.bool ∷ Kind.int ∷ Kind.int8 ∷ Kind.int16 ∷ Kind.int32 ∷ Kind.int64
    ∷ Kind.uint ∷ Kind.uint8 ∷ Kind.uint16 ∷ Kind.uint32 ∷ Kind.uint64 ∷ Kind.uintptr ∷ Kind.float32
    ∷ Kind.float64 ∷ Kind.complex64 ∷ Kind.complex128 ∷ Kind.array ∷ Kind.chan ∷ Kind.func
    ∷ Kind.interface ∷ Kind.map ∷ Kind.pointer ∷ Kind.slice ∷ Kind.string ∷ Kind.struct
    ∷ Kind.unsafe_pointer ∷ []

kind_of_number : (k : Kind) → get_elem? all_kinds (number k) ≡ some k
kind_of_number Kind.invalid = refl
kind_of_number _ = refl

-- Kinds with the same number are the same.
pub is→eq : (k j : Kind) → is k j ≡ true → k ≡ j
is→eq k j h =
    some_inj
      (sym (kind_of_number k) ∙ ap (get_elem? all_kinds) ((==_iff _ _).0 h) ∙ kind_of_number j)
  where
    some_inj : {a b : Kind} → some a ≡ some b → a ≡ b
    some_inj p = cc
