-- ===== src/Sqlite3/Hooks.antt =====
-- sqlite3.go: SetUpdateHook, SetCommitHook and SetRollbackHook, and the comparisons of a collation: the Go
-- functions that SQLite calls back.
pub mod Delivery
pub mod Tests
use purego_gen.Prelude.{ℕ, List, [], ◌∷◌, Option, none, some}
use purego_gen.Prelude.Int.{ℤ, pos, to_int32}
use purego_gen.Prelude.Text.{Text}
use purego_gen.Sys.Memory.{Memory, gostring, copy_bytes}
use purego_gen.Sqlite3.Registry.{Registry, Compare, lookup}

-- The callbacks of the user, on a state `U` that they may change.
abbrev pub UpdateFunc : Type 0 → Type 0
UpdateFunc U = ℤ → Text → Text → ℤ → U → U

abbrev pub CommitFunc : Type 0 → Type 0
CommitFunc U = U → ℤ × U

abbrev pub RollbackFunc : Type 0 → Type 0
RollbackFunc U = U → U

-- The functions that are passed to SQLite. That of an update reads the names of the database and of the table
-- from memory, and does not return if one has no end.
abbrev pub UpdateCallback : Type 0 → Type 0
UpdateCallback U = ℕ → Memory → ℤ → ℕ → ℕ → ℤ → U → Option U

-- sqlite3_update_hook, sqlite3_commit_hook and sqlite3_rollback_hook of the connection's database; none is NULL.
pub record HookLibrary (S U : Type 0) : Type 0 where
  pub update_hook : Option (UpdateCallback U) → S → S
  pub commit_hook : Option (CommitFunc U) → S → S
  pub rollback_hook : Option (RollbackFunc U) → S → S

-- The fields of SQLiteConn that keep the callbacks alive, and the library.
pub record HookEnv (S U : Type 0) : Type 0 where
  pub update_cb : Option (UpdateCallback U)
  pub commit_cb : Option (CommitFunc U)
  pub rollback_cb : Option (RollbackFunc U)
  pub lib : S

-- ptrToString, with fuel for its loop, and rawBytes.
abbrev pub ptr_to_string : ℕ → Memory → ℕ → Option Text
ptr_to_string fuel m p = gostring fuel m p

abbrev pub raw_bytes : Memory → ℕ → ℤ → Option Text
raw_bytes m p n = copy_bytes m p n

module _ {U : Type 0} where
  abbrev pub called : UpdateFunc U → ℤ → ℤ → Option Text → Option Text → U → Option U
  called f op row (some db) (some table) u = some (f op db table row u)
  called f op row db table u = none

  abbrev pub update_callback : UpdateFunc U → UpdateCallback U
  update_callback f fuel m op db table row u =
      called f op row (ptr_to_string fuel m db) (ptr_to_string fuel m table) u

  abbrev pub commit_callback : CommitFunc U → CommitFunc U
  commit_callback f u = let (code, u') = f u in (to_int32 code, u')

module _ {S U : Type 0} (y : HookLibrary S U) where
  unfoldable pub set_update_hook : Option (UpdateFunc U) → HookEnv S U → HookEnv S U
  set_update_hook none e = record e { update_cb = none; lib = y.update_hook none e.lib }
  set_update_hook (some f) e =
      let cb = update_callback f in
      record e { update_cb = some cb; lib = y.update_hook (some cb) e.lib }

  unfoldable pub set_commit_hook : Option (CommitFunc U) → HookEnv S U → HookEnv S U
  set_commit_hook none e = record e { commit_cb = none; lib = y.commit_hook none e.lib }
  set_commit_hook (some f) e =
      let cb = commit_callback f in
      record e { commit_cb = some cb; lib = y.commit_hook (some cb) e.lib }

  unfoldable pub set_rollback_hook : Option (RollbackFunc U) → HookEnv S U → HookEnv S U
  set_rollback_hook none e = record e { rollback_cb = none; lib = y.rollback_hook none e.lib }
  set_rollback_hook (some f) e = record e {
    rollback_cb = some f;
    lib = y.rollback_hook (some f) e.lib;
  }

-- string(rawBytes(…)): nil is the empty text.
abbrev pub raw_text : Option Text → Text
raw_text none = []
raw_text (some t) = t

abbrev pub compared : Option Compare → Text → Text → ℤ
compared none left right = pos 0
compared (some f) left right = to_int32 (f left right)

-- The callback of RegisterCollation: the lengths and the pointers of two texts.
unfoldable pub collate : {V R : Type 0} → Memory → ℕ → ℤ → ℕ → ℤ → ℕ → Registry V R → ℤ
unfolding lookup copy_bytes
collate m id left_len left right_len right r =
    compared (lookup id r.collations) (raw_text (raw_bytes m left left_len))
      (raw_text (raw_bytes m right right_len))
