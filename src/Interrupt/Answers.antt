-- ===== src/Interrupt/Answers.antt =====
-- What stop answers, and what becomes of the goroutine.
use purego_gen.Prelude.{ℕ, ◌<◌, ◌≡◌, refl, Bool, true, false, ◌⊎◌, inl, inr, ◌↔◌, subst, arith}
use purego_gen.Interrupt.{
  Goroutine, absent, waiting, woken, stored, ended, stopped, Watch, started, GoStep, StopStep, Step,
  Steps,
}
use purego_gen.Interrupt.Runs.{Steps-Inv}

-- The drivers' view of a watcher: stop may answer true if it watches a context that is done, and false
-- always.
abbrev pub MayAnswer : Bool → Bool → Bool → Type 0
MayAnswer watched cancelled answer = answer ≡ true → (watched ≡ true) × (cancelled ≡ true)

-- A run in which stop has given an answer.
abbrev pub Answering : Bool → Bool → Bool → Type 0
Answering watched cancelled answer =
    (s : Watch) × Steps (started watched false) s
    × (s.caller ≡ stopped answer)
    × (s.cancelled ≡ cancelled)

answer-MayAnswer :
    (watched : Bool) (s : Watch) (answer : Bool)
    → Steps (started watched false) s
    → s.caller ≡ stopped answer
    → MayAnswer watched s.cancelled answer
answer-MayAnswer watched s answer r e = ground (arith, Steps-Inv watched false r)

-- The steps of stop where the goroutine has not run, before or after the context is done.
unwatched_run : (cancelled : Bool) → Answering false cancelled false
unfolding started
unwatched_run false = (
  _,
  Steps.next (Steps.next Steps.here (Step.stop (StopStep.skip refl refl)))
      (Step.stop (StopStep.load refl)),
  refl,
  refl,
)
unwatched_run true = (
  _,
  Steps.next
      (Steps.next (Steps.next Steps.here (Step.stop (StopStep.skip refl refl)))
        (Step.stop (StopStep.load refl)))
      Step.cancel,
  refl,
  refl,
)

quiet_run : (cancelled : Bool) → Answering true cancelled false
unfolding started
quiet_run false = (
  _,
  Steps.next (Steps.next Steps.here (Step.stop (StopStep.close refl refl)))
      (Step.stop (StopStep.load refl)),
  refl,
  refl,
)
quiet_run true = (
  _,
  Steps.next
      (Steps.next (Steps.next Steps.here (Step.stop (StopStep.close refl refl)))
        (Step.stop (StopStep.load refl)))
      Step.cancel,
  refl,
  refl,
)

-- The goroutine sets the flag before stop reads it.
fired_run : Answering true true true
unfolding started
fired_run = (
  _,
  Steps.next
      (Steps.next
        (Steps.next
          (Steps.next (Steps.next Steps.here Step.cancel) (Step.go (GoStep.wake refl refl)))
          (Step.go (GoStep.store refl)))
        (Step.stop (StopStep.close refl refl)))
      (Step.stop (StopStep.load refl)),
  refl,
  refl,
)

some_run :
    (watched cancelled answer : Bool)
    → MayAnswer watched cancelled answer
    → Answering watched cancelled answer
some_run false cancelled false h = unwatched_run cancelled
some_run true cancelled false h = quiet_run cancelled
some_run true true true h = fired_run
some_run false cancelled true h = cc ((h refl).0)
some_run true false true h = cc ((h refl).1)

-- The interleaved protocol refines the view of the drivers, and no answer of that view is missed: for every
-- interleaving of the goroutine, the caller and the context from the start, stop answers true only if there
-- is a watcher and its context is done; and every such answer is given in some run.
pub stop-Refines :
    (watched cancelled answer : Bool)
    → Answering watched cancelled answer ↔ MayAnswer watched cancelled answer
stop-Refines watched cancelled answer = (
  λ r. subst (λ c. MayAnswer watched c answer) r.3 (answer-MayAnswer watched r.0 answer r.1 r.2),
  some_run watched cancelled answer,
)

-- Steps of the goroutine that are left.
abbrev pub rank : Goroutine → ℕ
rank waiting = 3
rank woken = 2
rank stored = 1
rank g = 0

may_go :
    (s : Watch) (g : Goroutine)
    → s.goroutine ≡ g
    → s.done ≡ true
    → (rank g ≡ 0) ⊎ ((t : Watch) × GoStep s t)
may_go s absent e d = inl refl
may_go s waiting e d = inr (_, GoStep.retire e d)
may_go s woken e d = inr (_, GoStep.store e)
may_go s stored e d = inr (_, GoStep.interrupt e)
may_go s ended e d = inl refl

GoStep-rank : {s t : Watch} → GoStep s t → rank t.goroutine < rank s.goroutine
GoStep-rank (GoStep.wake g c) = ground arith
GoStep-rank (GoStep.retire g d) = ground arith
GoStep-rank (GoStep.store g) = ground arith
GoStep-rank (GoStep.interrupt g) = ground arith

StopStep-rank : {s t : Watch} → StopStep s t → rank t.goroutine ≡ rank s.goroutine
StopStep-rank (StopStep.skip r d) = refl
StopStep-rank (StopStep.close r d) = refl
StopStep-rank (StopStep.load l) = refl
StopStep-rank (StopStep.again r) = refl

Step-rank : {s t : Watch} → Step s t → GoStep s t ⊎ (rank t.goroutine ≡ rank s.goroutine)
Step-rank (Step.go g) = inl g
Step-rank (Step.stop g) = inr (StopStep-rank g)
Step-rank Step.cancel = inr refl

-- The goroutine is not left behind: once stop has answered, the goroutine has a step, unless it is over; its
-- own steps lower the number of those that are left, and every other step, of the caller or of the context,
-- leaves that number as it is.
pub goroutine_ends :
    (watched cancelled : Bool) {s : Watch} (answer : Bool)
    → Steps (started watched cancelled) s
    → s.caller ≡ stopped answer
    → ((rank s.goroutine ≡ 0) ⊎ ((t : Watch) × GoStep s t))
      × ((t : Watch) → GoStep s t → rank t.goroutine < rank s.goroutine)
      × ((t : Watch) → StopStep s t → rank t.goroutine ≡ rank s.goroutine)
      × ((t : Watch) → Step s t → GoStep s t ⊎ (rank t.goroutine ≡ rank s.goroutine))
goroutine_ends watched cancelled {s} answer r e = (
  may_go s s.goroutine refl (ground (arith, Steps-Inv watched cancelled r)),
  λ t g. GoStep-rank g,
  λ t g. StopStep-rank g,
  λ t g. Step-rank g,
)
