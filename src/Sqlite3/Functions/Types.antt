-- ===== src/Sqlite3/Functions/Types.antt =====
-- sqlite3.go: the types of what a compiled function decodes.
use purego_gen.Prelude.{
  ℕ, ◌-◌, ◌%◌, ◌^◌, ◌<◌, ◌≡◌, refl, true, false, List, [], ◌∷◌, Option, none, some, arith,
  Bool-cases, inl, inr, subst, ◌&&◌, ◌||◌, ◌⊎◌,
}
use purego_gen.Prelude.Int.{ℤ, pos, negsuc, bits, signed}
use purego_gen.Prelude.Text.{Text}
use purego_gen.Go.{Time}
use purego_gen.Go.Exec.{Outcome, ok, err, panics, diverges}
use purego_gen.Go.Reflect.{
  Kind, is, is→eq, width, GoType, Argument, Reflected, bool_value, int_value, uint_value,
  float_value, string_value, bytes_value, time_value,
}
use purego_gen.Sqlite3.Extern.{Extern}
use purego_gen.Sqlite3.Functions.{
  Reader, is_signed_int, is_unsigned_int, parsed_time, convert_uint, convert_bytes,
  build_value_decoder,
}

-- The range of a number of a kind.
abbrev pub FitsSigned : Kind → ℤ → Type 0
FitsSigned k (pos n) = n < 2 ^ (width k - 1)
FitsSigned k (negsuc n) = n < 2 ^ (width k - 1)

-- The kinds of Go's signed and unsigned integers.
abbrev pub IsSigned : Kind → Type 0
IsSigned Kind.int = Unit
IsSigned Kind.int8 = Unit
IsSigned Kind.int16 = Unit
IsSigned Kind.int32 = Unit
IsSigned Kind.int64 = Unit
IsSigned k = ⊥

abbrev pub IsUnsigned : Kind → Type 0
IsUnsigned Kind.uint = Unit
IsUnsigned Kind.uint8 = Unit
IsUnsigned Kind.uint16 = Unit
IsUnsigned Kind.uint32 = Unit
IsUnsigned Kind.uint64 = Unit
IsUnsigned k = ⊥

is_signed_int-IsSigned : (k : Kind) → is_signed_int k ≡ true → IsSigned k
unfolding is_signed_int
is_signed_int-IsSigned Kind.int h = tt
is_signed_int-IsSigned _ h = ground arith

is_unsigned_int-IsUnsigned : (k : Kind) → is_unsigned_int k ≡ true → IsUnsigned k
unfolding is_unsigned_int
is_unsigned_int-IsUnsigned Kind.uint h = tt
is_unsigned_int-IsUnsigned _ h = ground arith

-- A value of a type.
abbrev pub HasValue : GoType → Reflected → Type 0
HasValue t (bool_value b) = t.kind ≡ Kind.bool
HasValue t (int_value k z) = (t.kind ≡ k) × IsSigned k × FitsSigned k z
HasValue t (uint_value k n) = (t.kind ≡ k) × IsUnsigned k × (n < 2 ^ width k)
HasValue t (float_value k n) = (t.kind ≡ k) × ((k ≡ Kind.float32) ⊎ (k ≡ Kind.float64))
HasValue t (string_value s) = t.kind ≡ Kind.string
HasValue t (bytes_value b) = (t.kind ≡ Kind.slice) × (t.elem ≡ Kind.uint8) × (t.elem_named ≡ false)
HasValue t (time_value s) = t.is_time ≡ true
HasValue t v = ⊥

-- An argument that can be passed for a parameter of a type, as reflect.Value.Call demands: it is of that
-- very type, and not only of its kind.
abbrev pub HasType : GoType → Argument → Type 0
HasType t a = (a.type ≡ t) × HasValue t a.value

-- Arguments for all the parameters, one for each.
abbrev pub HaveTypes : List GoType → List Argument → Type 0
HaveTypes [] [] = Unit
HaveTypes (t ∷ ts) (g ∷ gs) = HasType t g × HaveTypes ts gs
HaveTypes ts gs = ⊥

convert-FitsSigned : (k : Kind) (z : ℤ) → FitsSigned k (signed (width k) (bits (width k) z))
unfolding bits
convert-FitsSigned Kind.int8 (pos n) = ground arith
convert-FitsSigned _ z = ground arith

mod-width-lt : (k : Kind) (n : ℕ) → n % 2 ^ width k < 2 ^ width k
mod-width-lt Kind.int8 n = omega arith
mod-width-lt _ n = omega arith

slice_of_bytes :
    (t : GoType)
    → is t.kind Kind.slice && is t.elem Kind.uint8 ≡ true
    → (t.kind ≡ Kind.slice) × (t.elem ≡ Kind.uint8)
slice_of_bytes t h = ground (arith, is→eq t.kind Kind.slice, is→eq t.elem Kind.uint8)

float_kind :
    (k : Kind)
    → is k Kind.float32 || is k Kind.float64 ≡ true
    → (k ≡ Kind.float32) ⊎ (k ≡ Kind.float64)
float_kind k h = ground (arith, is→eq k Kind.float32, is→eq k Kind.float64)

abbrev Typed : GoType → Outcome Argument → Type 0
Typed t (ok g) = HasType t g
Typed t r = Unit

unsigned-Typed : (t : GoType) (z : ℤ) → is_unsigned_int t.kind ≡ true → Typed t (convert_uint t z)
unsigned-Typed t (pos n) h =
    (refl, (refl, is_unsigned_int-IsUnsigned t.kind h, mod-width-lt t.kind n))
unsigned-Typed t (negsuc n) h = tt

bytes-Typed :
    (t : GoType) (b : Option Text)
    → is t.kind Kind.slice && is t.elem Kind.uint8 ≡ true
    → Typed t (convert_bytes t b)
bytes-Typed t b h = elim (Bool-cases t.elem_named) [
  | inl named ↦ rw named tt
  | inr plain ↦ let (slice, byte) = slice_of_bytes t h in rw plain (refl, (slice, byte, refl))
]

time-Typed :
    (t : GoType) (text : Text) (o : Option Time) → t.is_time ≡ true → Typed t (parsed_time t text o)
time-Typed t text none h = tt
time-Typed t text (some s) h = (refl, h)

-- Case by case of the switch.

module _ {V : Type 0} where
  -- What a decoder makes of an argument.
  abbrev pub decoded : Outcome (V → Outcome Argument) → V → Outcome Argument
  decoded (ok d) v = d v
  decoded (err e) v = err e
  decoded panics v = panics
  decoded diverges v = diverges

module _ {S V : Type 0} (x : Extern S) (c : Reader V) where
  decoder-Typed : (t : GoType) (v : V) → Typed t (decoded (build_value_decoder x c t) v)
  unfolding build_value_decoder
  decoder-Typed t v = elim (Bool-cases (is t.kind Kind.string)) [
    | inl e ↦ rw e (refl, is→eq _ _ e)
    | inr not_string ↦
        rw not_string (elim (Bool-cases (is t.kind Kind.slice && is t.elem Kind.uint8)) [
          | inl e ↦ rw e (bytes-Typed t (c.value_blob v) e)
          | inr not_bytes ↦ rw not_bytes (elim (Bool-cases (is t.kind Kind.bool)) [
            | inl e ↦ rw e (refl, is→eq _ _ e)
            | inr not_bool ↦ rw not_bool (elim (Bool-cases (is_signed_int t.kind)) [
              | inl e ↦ rw e (
                refl,
                (
                  refl,
                  is_signed_int-IsSigned t.kind e,
                  convert-FitsSigned t.kind (c.value_int64 v),
                ),
              )
              | inr not_signed ↦ rw not_signed (elim (Bool-cases (is_unsigned_int t.kind)) [
                | inl e ↦ rw e (unsigned-Typed t (c.value_int64 v) e)
                | inr not_unsigned ↦
                    rw not_unsigned
                      (elim (Bool-cases (is t.kind Kind.float32 || is t.kind Kind.float64)) [
                        | inl e ↦ rw e (refl, (refl, float_kind t.kind e))
                        | inr not_float ↦ rw not_float (elim (Bool-cases t.is_time) [
                          | inl e ↦ simp e (time-Typed t _ _ e)
                          | inr unknown ↦ simp unknown tt
                        ])
                      ])
              ])
            ])
          ])
        ])
  ]

  -- What is decoded for a parameter can be passed for it.
  pub decoded-HasType :
      (t : GoType) (v : V) {d : V → Outcome Argument} {g : Argument}
      → build_value_decoder x c t ≡ ok d
      → d v ≡ ok g
      → HasType t g
  decoded-HasType t v {d} h e =
      subst (Typed t) e (subst (λ r. Typed t (decoded r v)) h (decoder-Typed t v))
