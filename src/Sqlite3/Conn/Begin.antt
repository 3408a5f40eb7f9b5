-- ===== src/Sqlite3/Conn/Begin.antt =====
-- sqlite3.go: the transactions that BeginTx refuses.
use purego_gen.Prelude.Int.{ℤ, pos, negsuc}
use purego_gen.Prelude.Text.{Text, codes, text_eq, text_eq_iff}
use purego_gen.Prelude.{
  [], ◌∷◌, ◌≢◌, arith, ℕ, ◌≡◌, refl, ◌⊎◌, inl, inr, true, false, none, Option-cases, Bool-cases,
}
use purego_gen.Go.{Context}
use purego_gen.Go.Exec.{Outcome, ok, err, panics, diverges, ◌>>=◌}
use purego_gen.Sqlite3.Extern.{Extern}
use purego_gen.Sqlite3.State.{Env}
use purego_gen.Sqlite3.Bind.{check_usable}
use purego_gen.Sqlite3.Conn.{TxOptions, Tx, begin_sql, supported_isolation, begin_tx}

-- Neither sql.LevelDefault nor sql.LevelSerializable.
abbrev pub IsOtherLevel : ℤ → Type 0
IsOtherLevel level = (level ≢ pos 0) × (level ≢ pos 6)

abbrev pub IsOtherLock : Text → Type 0
IsOtherLock lock =
    (lock ≢ [])
    × (lock ≢ codes "deferred")
    × (lock ≢ codes "immediate")
    × (lock ≢ codes "exclusive")

other_level : (level : ℤ) → IsOtherLevel level → supported_isolation level ≡ false
other_level (pos n) h = ground (arith, h.0, h.1)
other_level (negsuc n) h = refl

text_eq-false : (a b : Text) → a ≢ b → text_eq a b ≡ false
text_eq-false a b h = elim (Bool-cases (text_eq a b)) [
  | inl e ↦ absurd (h ((text_eq_iff a b).0 e))
  | inr e ↦ e
]

other_lock : (lock : Text) → IsOtherLock lock → begin_sql lock ≡ none
unfolding begin_sql
other_lock [] h = absurd (h.0 refl)
other_lock (c ∷ cs) (full, deferred, immediate, exclusive) =
    rw
      (
        text_eq-false (c ∷ cs) (codes "deferred") deferred,
        text_eq-false (c ∷ cs) (codes "immediate") immediate,
        text_eq-false (c ∷ cs) (codes "exclusive") exclusive,
      )
      refl

module _ {S : Type 0} where
  guarded :
      (opts : TxOptions) (e : Env S)
      → (opts.read_only ≡ true) ⊎ (IsOtherLevel opts.isolation ⊎ IsOtherLock e.conn.config.tx_lock)
      → (opts.read_only ≡ true)
        ⊎ ((supported_isolation opts.isolation ≡ false) ⊎ (begin_sql e.conn.config.tx_lock ≡ none))
  guarded opts e (inl h) = inl h
  guarded opts e (inr (inl h)) = inr (inl (other_level opts.isolation h))
  guarded opts e (inr (inr h)) = inr (inr (other_lock e.conn.config.tx_lock h))

  -- An error, and nothing done.
  abbrev pub Refused : Outcome Tx × Env S → Env S → Type 0
  Refused (err f, v) e = v ≡ e
  Refused (ok tx, v) e = ⊥
  Refused (panics, v) e = ⊥
  Refused (diverges, v) e = ⊥

  usable_refuses :
      (x : Extern S) (fuel : ℕ) (ctx : Context) (opts : TxOptions) (e : Env S)
      → check_usable e.conn ≡ none
      → (opts.read_only ≡ true)
        ⊎ ((supported_isolation opts.isolation ≡ false) ⊎ (begin_sql e.conn.config.tx_lock ≡ none))
      → Refused (begin_tx x fuel ctx opts e) e
  unfolding begin_tx ◌>>=◌
  usable_refuses x fuel ctx opts e u (inl h) = simp (u, h) refl
  usable_refuses x fuel ctx opts e u (inr (inl h)) = elim (Bool-cases opts.read_only) [
    | inl r ↦ simp (u, r) refl
    | inr r ↦ simp (u, r, h) refl
  ]
  usable_refuses x fuel ctx opts e u (inr (inr h)) = elim (Bool-cases opts.read_only) [
    | inl r ↦ simp (u, r) refl
    | inr r ↦ elim (Bool-cases (supported_isolation opts.isolation)) [
      | inl i ↦ simp (u, r, i, h) refl
      | inr i ↦ simp (u, r, i) refl
    ]
  ]

  -- A transaction that is read-only, of an isolation level other than the default (0) and serializable (6), or on
  -- a connection whose _txlock is neither empty nor one of "deferred", "immediate" and "exclusive", is refused before anything is done: BeginTx
  -- returns an error, and neither the library nor the connection has changed.
  pub begin_tx_refuses :
      (x : Extern S) (fuel : ℕ) (ctx : Context) (opts : TxOptions) (e : Env S)
      → (opts.read_only ≡ true) ⊎ (IsOtherLevel opts.isolation ⊎ IsOtherLock e.conn.config.tx_lock)
      → Refused (begin_tx x fuel ctx opts e) e
  begin_tx_refuses x fuel ctx opts e h = elim (Option-cases (check_usable e.conn)) [
    | inl usable ↦ usable_refuses x fuel ctx opts e usable (guarded opts e h)
    | inr (f, unusable) ↦ unfold begin_tx ◌>>=◌ in simp unusable refl
  ]
