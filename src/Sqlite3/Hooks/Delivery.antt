-- ===== src/Sqlite3/Hooks/Delivery.antt =====
-- sqlite3.go: which functions SQLite holds, and what they are called with.
use purego_gen.Prelude.{
  ℕ, ◌<◌, ◌≡◌, ◌≢◌, refl, ◌∙◌, true, false, List, [], ◌∷◌, Option, none, some, arith, length,
}
use purego_gen.Prelude.Int.{ℤ, pos, to_int32, ◌==ℤ◌}
use purego_gen.Prelude.Text.{Text}
use purego_gen.Sys.Memory.{Memory, bytes_at, copy_bytes}
use purego_gen.Sys.Memory.Strings.{IsCString, gostring-IsCString}
use purego_gen.Sqlite3.Codes.{sqlite_ok}
use purego_gen.Sqlite3.Extern.{Extern}
use purego_gen.Sqlite3.Registry.{
  Compare, Creator, RegistryEnv, lookup, next_registry_id, register_collation,
}
use purego_gen.Sqlite3.Registry.Entries.{one_of, lookup-register_collation}
use purego_gen.Sqlite3.Hooks.{
  UpdateFunc, CommitFunc, RollbackFunc, UpdateCallback, HookLibrary, HookEnv, update_callback,
  commit_callback, set_update_hook, set_commit_hook, set_rollback_hook, raw_text, collate,
}

-- A call of one of the three methods.
pub data SetHook (U : Type 0) : Type 0 where
  update : Option (UpdateFunc U) → SetHook U
  commit : Option (CommitFunc U) → SetHook U
  rollback : Option (RollbackFunc U) → SetHook U

-- What sqlite3.h says of the three functions: each replaces the callback that SQLite holds for its event, and
-- leaves the other two.
pub record Slots {S U : Type 0} (y : HookLibrary S U) : Type 0 where
  pub update_slot : S → Option (UpdateCallback U)
  pub commit_slot : S → Option (CommitFunc U)
  pub rollback_slot : S → Option (RollbackFunc U)
  pub update_update : (f : Option (UpdateCallback U)) (s : S) → update_slot (y.update_hook f s) ≡ f
  pub update_commit :
      (f : Option (UpdateCallback U)) (s : S) → commit_slot (y.update_hook f s) ≡ commit_slot s
  pub update_rollback :
      (f : Option (UpdateCallback U)) (s : S) → rollback_slot (y.update_hook f s) ≡ rollback_slot s
  pub commit_update :
      (f : Option (CommitFunc U)) (s : S) → update_slot (y.commit_hook f s) ≡ update_slot s
  pub commit_commit : (f : Option (CommitFunc U)) (s : S) → commit_slot (y.commit_hook f s) ≡ f
  pub commit_rollback :
      (f : Option (CommitFunc U)) (s : S) → rollback_slot (y.commit_hook f s) ≡ rollback_slot s
  pub rollback_update :
      (f : Option (RollbackFunc U)) (s : S) → update_slot (y.rollback_hook f s) ≡ update_slot s
  pub rollback_commit :
      (f : Option (RollbackFunc U)) (s : S) → commit_slot (y.rollback_hook f s) ≡ commit_slot s
  pub rollback_rollback :
      (f : Option (RollbackFunc U)) (s : S) → rollback_slot (y.rollback_hook f s) ≡ f

module _ {S U : Type 0} (y : HookLibrary S U) (k : Slots y) where
  unfoldable pub set_hook : SetHook U → HookEnv S U → HookEnv S U
  unfolding set_update_hook set_commit_hook set_rollback_hook
  set_hook (update f) e = set_update_hook y f e
  set_hook (commit f) e = set_commit_hook y f e
  set_hook (rollback f) e = set_rollback_hook y f e

  pub set_hooks : List (SetHook U) → HookEnv S U → HookEnv S U
  set_hooks [] e = e
  set_hooks (h ∷ hs) e = set_hooks hs (set_hook h e)

  -- The callbacks that SQLite holds are those that the connection keeps alive.
  abbrev pub ArePinned : HookEnv S U → Type 0
  ArePinned e =
      (k.update_slot e.lib ≡ e.update_cb)
      × (k.commit_slot e.lib ≡ e.commit_cb)
      × (k.rollback_slot e.lib ≡ e.rollback_cb)

  module _ (e : HookEnv S U) (p : ArePinned e) where
    update-ArePinned :
        (f : Option (UpdateCallback U))
        → ArePinned (record e { update_cb = f; lib = y.update_hook f e.lib })
    update-ArePinned f =
        (k.update_update f e.lib, k.update_commit f e.lib ∙ p.1, k.update_rollback f e.lib ∙ p.2)

    commit-ArePinned :
        (f : Option (CommitFunc U))
        → ArePinned (record e { commit_cb = f; lib = y.commit_hook f e.lib })
    commit-ArePinned f =
        (k.commit_update f e.lib ∙ p.0, k.commit_commit f e.lib, k.commit_rollback f e.lib ∙ p.2)

    rollback-ArePinned :
        (f : Option (RollbackFunc U))
        → ArePinned (record e { rollback_cb = f; lib = y.rollback_hook f e.lib })
    rollback-ArePinned f = (
      k.rollback_update f e.lib ∙ p.0,
      k.rollback_commit f e.lib ∙ p.1,
      k.rollback_rollback f e.lib,
    )

  set_hook-ArePinned : (h : SetHook U) (e : HookEnv S U) → ArePinned e → ArePinned (set_hook h e)
  unfolding set_hook
  set_hook-ArePinned (update none) e p = update-ArePinned e p none
  set_hook-ArePinned (update (some f)) e p = update-ArePinned e p (some (update_callback f))
  set_hook-ArePinned (commit none) e p = commit-ArePinned e p none
  set_hook-ArePinned (commit (some f)) e p = commit-ArePinned e p (some (commit_callback f))
  set_hook-ArePinned (rollback none) e p = rollback-ArePinned e p none
  set_hook-ArePinned (rollback (some f)) e p = rollback-ArePinned e p (some f)

  set_hooks-ArePinned :
      (hs : List (SetHook U)) (e : HookEnv S U) → ArePinned e → ArePinned (set_hooks hs e)
  unfolding set_hooks
  set_hooks-ArePinned [] e p = p
  set_hooks-ArePinned (h ∷ hs) e p =
      set_hooks-ArePinned hs (set_hook h e) (set_hook-ArePinned h e p)

  -- What SQLite does at a change of a row.
  abbrev pub deliver : Option (UpdateCallback U) → ℕ → Memory → ℤ → ℕ → ℕ → ℤ → U → Option U
  deliver none fuel m op db table row u = some u
  deliver (some cb) fuel m op db table row u = cb fuel m op db table row u

  abbrev pub told : Option (UpdateFunc U) → ℤ → Text → Text → ℤ → U → U
  told none op db table row u = u
  told (some f) op db table row u = f op db table row u

  -- After any calls of the three methods and a last one of SetUpdateHook, the connection keeps alive just the
  -- callbacks that SQLite holds, if it did before; and a change of a row calls the function that was
  -- given last, with the names of the database and of the table, or nothing if that was nil: for
  -- names at pointers that are not NULL, and more fuel than they have bytes.
  pub update_hook_delivers :
      (hs : List (SetHook U)) (e : HookEnv S U) (f : Option (UpdateFunc U)) (fuel : ℕ) (m : Memory)
      (op : ℤ) (p q : ℕ) (db table : Text) (row : ℤ) (u : U)
      → ArePinned e
      → IsCString m p db
      → IsCString m q table
      → p ≢ 0
      → q ≢ 0
      → length db < fuel
      → length table < fuel
      → let e' = set_update_hook y f (set_hooks hs e) in
        ArePinned e'
        × (deliver (k.update_slot e'.lib) fuel m op p q row u ≡ some (told f op db table row u))
  unfolding set_update_hook
  update_hook_delivers hs e none fuel m op p q db table row u pinned cp cq np nq lp lq =
      let e' = set_hooks hs e in
      (update-ArePinned e' (set_hooks-ArePinned hs e pinned) none, rw (k.update_update none e'.lib))
  update_hook_delivers hs e (some f) fuel m op p q db table row u pinned cp cq np nq lp lq =
      let e' = set_hooks hs e in
      (
        update-ArePinned e' (set_hooks-ArePinned hs e pinned) (some (update_callback f)),
        rw (k.update_update (some (update_callback f)) e'.lib) (
            rw (gostring-IsCString fuel m p db cp np lp)
              (rw (gostring-IsCString fuel m q table cq nq lq))),
      )

-- A text that SQLite passes by its length and a pointer.
raw_text_lem :
    (m : Memory) (p : ℕ) (t : Text)
    → p ≢ 0
    → bytes_at m p (length t) ≡ t
    → raw_text (copy_bytes m p (pos (length t))) ≡ t
unfolding copy_bytes
raw_text_lem m p [] n h = refl
raw_text_lem m p (b ∷ bs) n h = ground (arith, h)

module _ {V R S : Type 0} (x : Extern S) (y : Creator S) where
  -- A collation that SQLite took, and whose destructor it has not called, compares two texts by the function
  -- that was registered, whose answer is cut to an int32: for texts at pointers that are not NULL.
  pub collate-register_collation :
      (name : Text) (f : Compare) (e : RegistryEnv V R S) (m : Memory) (p q : ℕ) (left right : Text)
      → let id = next_registry_id e.registry.next_id in
        let called = y.create_collation e.db name id e.lib in
        called.0 ==ℤ sqlite_ok ≡ true
        → one_of id called.1 ≡ false
        → p ≢ 0
        → q ≢ 0
        → bytes_at m p (length left) ≡ left
        → bytes_at m q (length right) ≡ right
        → collate m id
            (pos (length left))
            p
            (pos (length right))
            q
            (register_collation x y name (some f) e).1.registry
          ≡ to_int32 (f left right)
  unfolding collate
  collate-register_collation name f e m p q left right h n np nq hl hr =
      let id = next_registry_id e.registry.next_id in
      let found : lookup id (register_collation x y name (some f) e).1.registry.collations
          ≡ some f =
        lookup-register_collation x y name f e id ∙ ground (arith, h, n) in
      rw found (rw (raw_text_lem m p left np hl) (rw (raw_text_lem m q right nq hr) refl))
