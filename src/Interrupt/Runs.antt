-- ===== src/Interrupt/Runs.antt =====
-- What holds after any steps from the start.
use purego_gen.Prelude.{ℕ, ◌+◌, ◌≤◌, ◌≡◌, Bool, true, false, arith, ◌==◌, if◌then◌else◌}
use purego_gen.Interrupt.{
  Goroutine, absent, waiting, woken, stored, ended, Caller, running, loading, stopped, Watch,
  started, GoStep, StopStep, Step, Steps,
}

-- How often the goroutine may still interrupt the database, and whether it has set the flag.
abbrev to_come : Goroutine → ℕ
to_come absent = 0
to_come ended = 0
to_come g = 1

abbrev HasSet : Goroutine → Bool → ℕ → Type 0
HasSet absent b n = (b ≡ false) × (n ≡ 0)
HasSet waiting b n = b ≡ false
HasSet woken b n = b ≡ false
HasSet stored b n = b ≡ true
HasSet ended b n = b ≡ (if n == 0 then false else true)

abbrev Saw : Goroutine → Bool → Type 0
Saw woken cancelled = cancelled ≡ true
Saw stored cancelled = cancelled ≡ true
Saw g cancelled = Unit

abbrev Answered : Caller → Bool → Bool → Type 0
Answered running done interrupted = Unit
Answered loading done interrupted = done ≡ true
Answered (stopped b) done interrupted = (done ≡ true) × (b ≡ true → interrupted ≡ true)

pub record Inv (watched : Bool) (s : Watch) : Type 0 where
  pub once : s.interrupts + to_come s.goroutine ≤ (if watched then 1 else 0)
  pub set : HasSet s.goroutine s.interrupted s.interrupts
  pub saw : Saw s.goroutine s.cancelled
  pub caused : s.interrupted ≡ true → s.cancelled ≡ true
  pub answered : Answered s.caller s.done s.interrupted

started-Inv : (watched cancelled : Bool) → Inv watched (started watched cancelled)
unfolding started
started-Inv watched cancelled = ground arith

GoStep-Inv : {w : Bool} {s t : Watch} → GoStep s t → Inv w s → Inv w t
GoStep-Inv (GoStep.wake g c) h = ground arith
GoStep-Inv (GoStep.retire g d) h = ground arith
GoStep-Inv (GoStep.store g) h = ground arith
GoStep-Inv (GoStep.interrupt g) h = ground arith

StopStep-Inv : {w : Bool} {s t : Watch} → StopStep s t → Inv w s → Inv w t
StopStep-Inv (StopStep.skip r d) h = ground arith
StopStep-Inv (StopStep.close r d) h = ground arith
StopStep-Inv (StopStep.load l) h = ground arith
StopStep-Inv (StopStep.again r) h = ground arith

Step-Inv : {w : Bool} {s t : Watch} → Step s t → Inv w s → Inv w t
Step-Inv (Step.go st) h = GoStep-Inv st h
Step-Inv (Step.stop st) h = StopStep-Inv st h
Step-Inv Step.cancel h = ground arith

pub Steps-Inv :
    (watched cancelled : Bool) {s : Watch} → Steps (started watched cancelled) s → Inv watched s
Steps-Inv watched cancelled Steps.here = started-Inv watched cancelled
Steps-Inv watched cancelled (Steps.next r st) = Step-Inv st (Steps-Inv watched cancelled r)
