-- ===== src/Go/Exec.antt =====
-- Go code that mutates state: it ends with a value, an error, a panic, or not within the fuel.
-- What was written before an error stays written.
use purego_gen.Prelude.{Option, none, some}
use purego_gen.Go.{GoError}

pub data Outcome {ℓ} (A : Type ℓ) : Type ℓ where
  ok : A → Outcome A
  err : GoError → Outcome A
  panics : Outcome A
  diverges : Outcome A

abbrev pub Exec : Type 0 → Type 0 → Type 0
Exec S A = S → Outcome A × S

module _ {S A : Type 0} where
  unfoldable pub pure : A → Exec S A
  pure a s = (ok a, s)

  unfoldable pub fail : GoError → Exec S A
  fail e s = (err e, s)

  unfoldable pub lift : Outcome A → Exec S A
  lift r s = (r, s)

  unfoldable pub gets : (S → A) → Exec S A
  gets f s = (ok (f s), s)

unfoldable pub state : {S : Type 0} → Exec S S
state s = (ok s, s)

unfoldable pub modify : {S : Type 0} → (S → S) → Exec S (Unit {0})
modify f s = (ok tt, f s)

-- `if err := …; err != nil { return err }`.
unfoldable pub check : {S : Type 0} → Option GoError → Exec S (Unit {0})
check none s = (ok tt, s)
check (some e) s = (err e, s)

module _ {S A B : Type 0} where
  abbrev pub continue : Outcome A → (A → Exec S B) → Exec S B
  continue (ok a) f s = f a s
  continue (err e) f s = (err e, s)
  continue panics f s = (panics, s)
  continue diverges f s = (diverges, s)

  infixl 10 ◌>>=◌ ◌>>◌
  unfoldable pub ◌>>=◌ : Exec S A → (A → Exec S B) → Exec S B
  unfolding pure fail lift gets state modify check
  ◌>>=◌ m f s = continue (m s).0 f (m s).1

  abbrev pub ◌>>◌ : Exec S A → Exec S B → Exec S B
  m >> n = m >>= λ _. n

module _ {S A : Type 0} where
  -- `defer d()`, where what `d` returns is dropped. A loop without end never comes to it.
  abbrev pub defer_then : Outcome A → Exec S (Unit {0}) → Exec S A
  defer_then diverges d s = (diverges, s)
  defer_then r d s = (r, (d s).1)

  unfoldable pub deferred : Exec S A → Exec S (Unit {0}) → Exec S A
  deferred m d s = defer_then (m s).0 d (m s).1

  -- `if err := m(); err != nil { _ = d(); return err }`.
  abbrev pub cleanup_then : Outcome A → Exec S (Unit {0}) → Exec S A
  cleanup_then (err e) d s = (err e, (d s).1)
  cleanup_then r d s = (r, s)

  unfoldable pub on_error : Exec S A → Exec S (Unit {0}) → Exec S A
  on_error m d s = cleanup_then (m s).0 d (m s).1
