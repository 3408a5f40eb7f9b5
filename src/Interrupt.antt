-- ===== src/Interrupt.antt =====
-- sqlite3/sqlite3.go and duckdb/duckdb.go: interruptWatcher and cancelState.stop, which are the same in both.
-- The caller, the goroutine and the context run interleaved; a step is one of their accesses to what they
-- share.
pub mod Runs
pub mod Answers
pub mod Tests
use purego_gen.Prelude.{ℕ, ◌+◌, ◌≡◌, Bool, true, false, not, if◌then◌else◌}

pub data Goroutine : Type 0 where
  absent : Goroutine  -- never started
  waiting : Goroutine  -- at the select
  woken : Goroutine  -- the context was done
  stored : Goroutine  -- the flag is set
  ended : Goroutine

pub data Caller : Type 0 where
  running : Caller  -- before a call of stop
  loading : Caller  -- in stop, after its select
  stopped : Bool → Caller  -- stop has returned

-- cancelState with the two that use it, whether the context is done, and how often Interrupt was called.
pub record Watch : Type 0 where
  pub done : Bool
  pub interrupted : Bool
  pub goroutine : Goroutine
  pub caller : Caller
  pub cancelled : Bool
  pub interrupts : ℕ

-- After interruptWatcher: with no context that can be done, or no database, the channel is closed and there
-- is no goroutine.
unfoldable pub started : Bool → Bool → Watch
started watched cancelled = record {
  done = not watched;
  interrupted = false;
  goroutine = if watched then waiting else absent;
  caller = running;
  cancelled = cancelled;
  interrupts = 0;
}

-- A step of the goroutine. Where both channels of its select are ready, either may be taken.
pub data GoStep (s : Watch) : Watch → Type 0 where
  wake : s.goroutine ≡ waiting → s.cancelled ≡ true → GoStep s (record s { goroutine = woken })
  retire : s.goroutine ≡ waiting → s.done ≡ true → GoStep s (record s { goroutine = ended })
  store : s.goroutine ≡ woken → GoStep s (record s { goroutine = stored; interrupted = true })
  interrupt :
      s.goroutine ≡ stored
      → GoStep s (record s { goroutine = ended; interrupts = s.interrupts + 1 })

-- A step of the caller, which may call stop again.
pub data StopStep (s : Watch) : Watch → Type 0 where
  skip : s.caller ≡ running → s.done ≡ true → StopStep s (record s { caller = loading })
  close :
      s.caller ≡ running → s.done ≡ false → StopStep s (record s { caller = loading; done = true })
  load : s.caller ≡ loading → StopStep s (record s { caller = stopped s.interrupted })
  again : {b : Bool} → s.caller ≡ stopped b → StopStep s (record s { caller = running })

pub data Step (s : Watch) : Watch → Type 0 where
  go : {t : Watch} → GoStep s t → Step s t
  stop : {t : Watch} → StopStep s t → Step s t
  cancel : Step s (record s { cancelled = true })

pub data Steps (s : Watch) : Watch → Type 0 where
  here : Steps s s
  next : {t u : Watch} → Steps s t → Step t u → Steps s u
