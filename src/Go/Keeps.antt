-- ===== src/Go/Keeps.antt =====
-- Calls that leave a part of the state as it is, whatever they return.
use purego_gen.Prelude.{◌≡◌, refl, ◌∙◌, Bool, true, false, Option, none, some, if◌then◌else◌}
use purego_gen.Go.{GoError}
use purego_gen.Go.Exec.{
  Exec, Outcome, ok, err, panics, diverges, pure, fail, lift, state, ◌>>=◌, check, continue,
}

pub record Keeps {S V A : Type 0} (view : S → V) (m : Exec S A) : Type 0 where
  pub at : (s : S) → view (m s).1 ≡ view s

module _ {S V : Type 0} {view : S → V} where
  pub Keeps-pure : {A : Type 0} (a : A) → Keeps view (pure a)
  unfolding pure
  Keeps-pure a = record { at = λ s. refl }

  pub Keeps-fail : {A : Type 0} (e : GoError) → Keeps view (fail {A = A} e)
  unfolding fail
  Keeps-fail e = record { at = λ s. refl }

  pub Keeps-lift : {A : Type 0} (r : Outcome A) → Keeps view (lift r)
  unfolding lift
  Keeps-lift r = record { at = λ s. refl }

  pub Keeps-state : Keeps view state
  unfolding state
  Keeps-state = record { at = λ s. refl }

  pub Keeps-check : (o : Option GoError) → Keeps view (check o)
  unfolding check
  Keeps-check none = record { at = λ s. refl }
  Keeps-check (some e) = record { at = λ s. refl }

  continue-Keeps :
      {A B : Type 0} (r : Outcome A) (f : A → Exec S B) (s : S)
      → ((a : A) → Keeps view (f a))
      → view (continue r f s).1 ≡ view s
  continue-Keeps (ok a) f s k = (k a).at s
  continue-Keeps (err e) f s k = refl
  continue-Keeps panics f s k = refl
  continue-Keeps diverges f s k = refl

  pub Keeps-bind :
      {A B : Type 0} (m : Exec S A) (f : A → Exec S B)
      → Keeps view m
      → ((a : A) → Keeps view (f a))
      → Keeps view (m >>= f)
  unfolding ◌>>=◌
  Keeps-bind m f k h = record { at = λ s. continue-Keeps (m s).0 f (m s).1 h ∙ k.at s }

  pub Keeps-if :
      {A : Type 0} (b : Bool) (m n : Exec S A)
      → Keeps view m
      → Keeps view n
      → Keeps view (if b then m else n)
  Keeps-if true m n k h = k
  Keeps-if false m n k h = h

pub ruleset keeps_rules =
    (Keeps-pure, Keeps-fail, Keeps-lift, Keeps-state, Keeps-check, Keeps-bind, Keeps-if)
