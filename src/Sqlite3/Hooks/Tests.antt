-- ===== src/Sqlite3/Hooks/Tests.antt =====
-- A library that keeps the three callbacks, and a user that lists the tables that were changed.
use purego_gen.Prelude.{ℕ, ◌≡◌, refl, List, [], ◌∷◌, Option, none, some, arith, length}
use purego_gen.Prelude.Int.{pos, to_int32}
use purego_gen.Prelude.Text.{Text, codes}
use purego_gen.Sys.Memory.{Memory, bytes_at, c_string}
use purego_gen.Sys.Memory.Bytes.{write}
use purego_gen.Sqlite3.Tests.World.{World, world, empty_world}
use purego_gen.Sqlite3.Registry.{
  Compare, Creator, RegistryEnv, next_registry_id, register_collation,
}
use purego_gen.Sqlite3.Hooks.{
  UpdateFunc, CommitFunc, RollbackFunc, UpdateCallback, HookLibrary, HookEnv, set_update_hook,
  collate,
}
use purego_gen.Sqlite3.Hooks.Delivery.{
  SetHook, Slots, set_hooks, ArePinned, deliver, update_hook_delivers, collate-register_collation,
}

pub record Held : Type 0 where
  pub update_held : Option (UpdateCallback (List Text))
  pub commit_held : Option (CommitFunc (List Text))
  pub rollback_held : Option (RollbackFunc (List Text))

abbrev holder : HookLibrary Held (List Text)
holder = record {
  update_hook = λ f s. record s { update_held = f };
  commit_hook = λ f s. record s { commit_held = f };
  rollback_hook = λ f s. record s { rollback_held = f };
}

abbrev slots : Slots holder
slots = record {
  update_slot = λ s. s.update_held;
  commit_slot = λ s. s.commit_held;
  rollback_slot = λ s. s.rollback_held;
  update_update = λ f s. refl;
  update_commit = λ f s. refl;
  update_rollback = λ f s. refl;
  commit_update = λ f s. refl;
  commit_commit = λ f s. refl;
  commit_rollback = λ f s. refl;
  rollback_update = λ f s. refl;
  rollback_commit = λ f s. refl;
  rollback_rollback = λ f s. refl;
}

abbrev no_hooks : HookEnv Held (List Text)
no_hooks = record {
  update_cb = none;
  commit_cb = none;
  rollback_cb = none;
  lib = record { update_held = none; commit_held = none; rollback_held = none };
}

abbrev list_table : UpdateFunc (List Text)
list_table op db table row u = table ∷ u

abbrev allow : CommitFunc (List Text)
allow u = (pos 0, u)

abbrev names : Memory
names = write (write (λ a. 0) 100 (c_string (codes "main"))) 200 (c_string (codes "t"))

abbrev hooked : HookEnv Held (List Text)
hooked =
    set_update_hook holder (some list_table)
      (set_hooks holder slots (SetHook.commit (some allow) ∷ []) no_hooks)

update_hook_delivers_example :
    ArePinned holder slots hooked
    × (deliver holder slots hooked.lib.update_held 9 names (pos 18) 100 200 (pos 1) []
        ≡ some (codes "t" ∷ []))
unfolding write c_string
update_hook_delivers_example =
    update_hook_delivers holder slots (SetHook.commit (some allow) ∷ []) no_hooks (some list_table)
      9 names (pos 18) 100 200 (codes "main") (codes "t") (pos 1) [] (refl, refl, refl)
      (omega arith) (omega arith) (omega arith) (omega arith) (omega arith) (omega arith)

abbrev by_length : Compare
by_length a b = pos (length a)

abbrev taker : Creator World
taker = record {
  create_function = λ db name argc is_pure id w. (pos 1, [], w);
  create_collation = λ db name id w. (pos 0, [], w);
}

abbrev no_collations : RegistryEnv ℕ ℕ World
no_collations = record {
  registry = record { next_id = 0; scalars = []; collations = [] };
  db = some 9;
  lib = empty_world;
}

collate-register_collation_example :
    collate names
      (next_registry_id 0)
      (pos 4)
      100
      (pos 1)
      200
      (register_collation world taker (codes "len") (some by_length) no_collations).1.registry
    ≡ to_int32 (pos 4)
unfolding write c_string next_registry_id
collate-register_collation_example =
    collate-register_collation world taker (codes "len") by_length no_collations names 100 200
      (codes "main") (codes "t") refl refl (omega arith) (omega arith) (unfold bytes_at in refl)
      (unfold bytes_at in refl)
