-- ===== src/Duckdb/Values.antt =====
-- duckdb.go: values given by the caller, made into driver values.
use purego_gen.Prelude.{ℕ, ◌+◌, List, [], ◌∷◌, ltb, if◌then◌else◌}
use purego_gen.Prelude.Int.{pos}
use purego_gen.Go.{
  Value, nil, int64, float64, bool, string, bytes, time, int, int8, int16, int32, uint, uint8,
  uint16, uint32, uint64, float32, valuer_ok, valuer_err, other, NamedValue, errorf, num, type_id,
}
use purego_gen.Go.Exec.{Outcome, ok, err}

abbrev pub max_int64 : ℕ
max_int64 = 9223372036854775807

-- Every case of the switch on the type. It calls itself on what a Valuer returns, which ends since every chain of
-- Valuers in a `Value` does; the Go function never ends on a Valuer that returns itself.
unfoldable pub normalize_value : Value → Outcome Value
normalize_value nil = ok nil
normalize_value (int64 v) = ok (int64 v)
normalize_value (float64 v) = ok (float64 v)
normalize_value (bool v) = ok (bool v)
normalize_value (string v) = ok (string v)
normalize_value (bytes v) = ok (bytes v)
normalize_value (time v) = ok (time v)
normalize_value (int v) = ok (int64 v)
normalize_value (int8 v) = ok (int64 v)
normalize_value (int16 v) = ok (int64 v)
normalize_value (int32 v) = ok (int64 v)
normalize_value (uint v) =
    if ltb max_int64 v
    then err (errorf "duckdb: uint value %d overflows int64" (num (pos v) ∷ []))
    else ok (int64 (pos v))
normalize_value (uint8 v) = ok (int64 (pos v))
normalize_value (uint16 v) = ok (int64 (pos v))
normalize_value (uint32 v) = ok (int64 (pos v))
normalize_value (uint64 v) =
    if ltb max_int64 v
    then err (errorf "duckdb: uint64 value %d overflows int64" (num (pos v) ∷ []))
    else ok (int64 (pos v))
normalize_value (float32 v) = ok (float64 v)
normalize_value (valuer_ok v) = normalize_value v
normalize_value (valuer_err e) = err e
normalize_value (other t) = err (errorf "duckdb: unsupported value type %T" (type_id t ∷ []))

-- CheckNamedValue of a connection and of a statement.
unfoldable pub check_named_value : NamedValue → Outcome NamedValue
unfolding normalize_value
check_named_value nv = elim (normalize_value nv.value) [
  | ok v ↦ ok (record nv { value = v })
  | err e ↦ err e
  | Outcome.panics ↦ Outcome.panics
  | Outcome.diverges ↦ Outcome.diverges
]

unfoldable pub named_from : ℕ → List Value → List NamedValue
named_from index [] = []
named_from index (v ∷ vs) =
    record { name = []; ordinal = pos (index + 1); value = v } ∷ named_from (index + 1) vs

unfoldable pub values_to_named_values : List Value → List NamedValue
unfolding named_from
values_to_named_values args = named_from 0 args
