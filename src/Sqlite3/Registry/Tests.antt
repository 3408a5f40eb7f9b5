-- ===== src/Sqlite3/Registry/Tests.antt =====
-- A connection with one function, on a library that takes functions, drops the one of number 1, and
-- refuses collations.
use purego_gen.Prelude.{ℕ, ◌<◌, ◌≡◌, refl, true, false, map, [], ◌∷◌, none, some, arith, length}
use purego_gen.Prelude.Int.{pos}
use purego_gen.Prelude.Text.{codes}
use purego_gen.Go.Reflect.{Kind, Reflected, Argument, argument}
use purego_gen.Go.Exec.{ok}
use purego_gen.Sqlite3.Tests.World.{World, world, empty_world}
use purego_gen.Sqlite3.Registry.{
  ScalarFunction, result, Compare, Creator, RegistryEnv, lookup, next_registry_id, register_func,
  invoke_scalar,
}
use purego_gen.Sqlite3.Registry.Entries.{
  lookup-register_func, register_func_fresh, invoke-register_func,
}

abbrev byte_argument : ℕ → Argument
byte_argument n =
    argument
      (record {
        name = codes "uint8";
        kind = Kind.uint8;
        elem = Kind.invalid;
        elem_named = false;
        is_time = false;
        is_error = false;
      })
      (Reflected.uint_value Kind.uint8 n)

abbrev count_args : ScalarFunction ℕ ℕ
count_args = record {
  call = λ vs. some (map (λ a. a.value) vs);
  args = (λ v. ok (byte_argument v)) ∷ [];
  return_func = λ vs. ok (result (length vs));
}

abbrev compare_nothing : Compare
compare_nothing a b = pos 0

abbrev creator : Creator World
creator = record {
  create_function = λ db name argc is_pure id w. (pos 0, 1 ∷ [], w);
  create_collation = λ db name id w. (pos 1, [], w);
}

abbrev one_function : RegistryEnv ℕ ℕ World
one_function = record {
  registry = record { next_id = 1; scalars = (1, count_args) ∷ []; collations = [] };
  db = some 9;
  lib = empty_world;
}

lookup-register_func_example :
    lookup 2
      (register_func world creator (codes "f") (ok count_args) true one_function).1.registry.scalars
    ≡ some count_args
unfolding next_registry_id
lookup-register_func_example =
    lookup-register_func world creator (codes "f") count_args true one_function 2

unused : (j : ℕ) → 1 < j → lookup j one_function.registry.scalars ≡ none
unfolding lookup
unused j h = ground arith

abbrev two_functions : RegistryEnv ℕ ℕ World
two_functions = (register_func world creator (codes "f") (ok count_args) true one_function).1

register_func_fresh_example :
    (two_functions.registry.next_id ≡ 2)
    × (lookup two_functions.registry.next_id one_function.registry.scalars ≡ none)
    × (lookup 3 two_functions.registry.scalars ≡ none)
register_func_fresh_example =
    register_func_fresh world creator (codes "f") count_args true one_function 3 (omega arith)
      unused (omega arith)

invoke-register_func_example : invoke_scalar 2 (7 ∷ []) two_functions.registry ≡ ok (result 1)
unfolding next_registry_id
invoke-register_func_example =
    invoke-register_func world creator (codes "f") count_args true one_function (7 ∷ [])
      (byte_argument 7 ∷ []) (Reflected.uint_value Kind.uint8 7 ∷ []) refl refl (refl, tt) refl
