-- ===== src/Harness/One.antt =====
-- project3/testone.cpp: the workers, interleaved a call of the stack or an access to a shared
-- variable at a time, and what `main` prints. The additions to the totals are not atomic.
pub mod Totals
pub mod Main
mod Tests
use utd_cs6v81_spring.Base.{
  ℕ, ◌+◌, ◌%◌, ◌^◌, Bool, true, false, Option, none, some, List, [], ◌∷◌, ltb, if◌then◌else◌,
}
use utd_cs6v81_spring.Base.Family.{update}
use utd_cs6v81_spring.Times.{Timespec, less}
use utd_cs6v81_spring.Harness.Rounds.{Input, Counts, no_counts, round, leftover}

-- Where a thread stands in `worker`: in the loop that waits for the start, in its main loop, before
-- the read and the write of each total, with the value read, and at the end.
pub data Place : Type 0 where
  waiting looping load_push : Place
  store_push : (value : ℕ) → Place
  load_pop : Place
  store_pop : (value : ℕ) → Place
  finished : Place

pub record Worker : Type 0 where
  pub place : Place
  pub counts : Counts

pub record Shared : Type 0 where
  pub stack : List ℕ
  pub globalstack : Bool  -- whether it has been set
  pub totalpushcount : ℕ
  pub totalpopcount : ℕ

abbrev pub rounds : ℕ
rounds = 10000

module _ (starttime : Timespec) where
  unfoldable pub act : ℕ → Shared → Worker → Place → Input → Shared × Worker
  act tid s w waiting x =
      if less x.now starttime
      then (s, w)
      else (record s { globalstack = true }, record w { place = looping })
  act tid s w looping x =
      let (stack, counts) = round tid x.heads s.stack w.counts in
      if ltb w.counts.i rounds
      then (record s { stack = stack }, record w { counts = counts })
      else (s, record w { place = load_push })
  act tid s w load_push x = (s, record w { place = store_push s.totalpushcount })
  act tid s w (store_push v) x = (
    record s { totalpushcount = (v + w.counts.pushcount) % 2 ^ 64 },
    record w { place = load_pop },
  )
  act tid s w load_pop x = (s, record w { place = store_pop s.totalpopcount })
  act tid s w (store_pop v) x =
      (record s { totalpopcount = (v + w.counts.popcount) % 2 ^ 64 }, record w { place = finished })
  act tid s w finished x = (s, w)

  pub record State : Type 0 where
    pub shared : Shared
    pub worker : ℕ → Worker

  unfoldable pub step : State → ℕ → Input → State
  unfolding act
  step s tid x =
      let (shared, w) = act tid s.shared (s.worker tid) (s.worker tid).place x in
      record { shared = shared; worker = update s.worker tid w }

  unfoldable pub run : State → List (ℕ × Input) → State
  run s [] = s
  run s ((tid, x) ∷ turns) = run (step s tid x) turns

  abbrev pub start : State
  start = record {
    shared = record { stack = []; globalstack = false; totalpushcount = 0; totalpopcount = 0 };
    worker = λ _. record { place = waiting; counts = no_counts };
  }

-- What `main` prints: the operations, and, in a build with PROJ_DEBUG1, the nodes left over. It calls
-- `pop` through `globalstack`, which no thread has set if there is none.
pub record Printed : Type 0 where
  pub operations : ℕ
  pub left_over : ℕ

unfoldable pub finish : Shared → Option Printed
finish s =
    if s.globalstack
    then some (record {
      operations = (s.totalpushcount + s.totalpopcount) % 2 ^ 64;
      left_over = leftover s.stack 0;
    })
    else none
