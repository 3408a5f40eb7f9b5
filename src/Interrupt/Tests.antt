-- ===== src/Interrupt/Tests.antt =====
-- A run in which the context is done before stop is called, and the goroutine is late.
use purego_gen.Prelude.{◌<◌, ◌≡◌, refl, true, false, ◌⊎◌, ◌↔◌}
use purego_gen.Interrupt.{waiting, stopped, Watch, started, GoStep, StopStep, Step, Steps}
use purego_gen.Interrupt.Answers.{Answering, MayAnswer, stop-Refines, rank, goroutine_ends}

abbrev late : Watch
late = record {
  done = true;
  interrupted = false;
  goroutine = waiting;
  caller = stopped false;
  cancelled = true;
  interrupts = 0;
}

late_run : Steps (started true true) late
unfolding started
late_run =
    Steps.next (Steps.next Steps.here (Step.stop (StopStep.close refl refl)))
      (Step.stop (StopStep.load refl))

stop-Refines_example : Answering true false true ↔ MayAnswer true false true
stop-Refines_example = stop-Refines true false true

goroutine_ends_example :
    ((rank late.goroutine ≡ 0) ⊎ ((t : Watch) × GoStep late t))
    × ((t : Watch) → GoStep late t → rank t.goroutine < rank late.goroutine)
    × ((t : Watch) → StopStep late t → rank t.goroutine ≡ rank late.goroutine)
    × ((t : Watch) → Step late t → GoStep late t ⊎ (rank t.goroutine ≡ rank late.goroutine))
goroutine_ends_example = goroutine_ends true true false late_run refl
