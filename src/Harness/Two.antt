-- ===== src/Harness/Two.antt =====
-- project3/testtwo.cpp, built without USE_GC: the workers, interleaved a call of the stack or an
-- access to a shared variable at a time, and what `main` prints.
pub mod Totals
pub mod Main
mod Tests
use utd_cs6v81_spring.Base.{
  ℕ, zero, suc, ◌+◌, ◌%◌, ◌^◌, Bool, true, false, Option, none, some, List, [], ◌∷◌, if◌then◌else◌,
}
use utd_cs6v81_spring.Base.Family.{update}
use utd_cs6v81_spring.Times.{Timespec, less}
use utd_cs6v81_spring.Harness.Rounds.{Input, Counts, no_counts, round, leftover}

-- Where a thread stands in `worker`: in the loop that waits for the start, in its main loop, before
-- each of the three atomic additions, at the end.
pub data Place : Type 0 where
  waiting looping add_push add_pop add_allocs finished : Place

pub record Worker : Type 0 where
  pub place : Place
  pub counts : Counts
  pub allocs : ℕ  -- uint64_t

pub record Shared : Type 0 where
  pub stack : List ℕ
  pub globalstack : Bool  -- whether it has been set
  pub totalpushcount : ℕ
  pub totalpopcount : ℕ
  pub total_allocs : ℕ

module _ (starttime stoptime : Timespec) where
  unfoldable pub act : ℕ → Shared → Worker → Place → Input → Shared × Worker
  act tid s w waiting x =
      if less x.now starttime
      then (s, w)
      else (record s { globalstack = true }, record w { place = looping })
  act tid s w looping x =
      let (stack, counts) = round tid x.heads s.stack w.counts in
      let w' : Worker = record w {
        counts = counts;
        allocs = if x.heads then w.allocs + 1 else w.allocs;
        place = if less x.now stoptime then looping else add_push;
      } in
      (record s { stack = stack }, w')
  act tid s w add_push x = (
    record s { totalpushcount = (s.totalpushcount + w.counts.pushcount) % 2 ^ 64 },
    record w { place = add_pop },
  )
  act tid s w add_pop x = (
    record s { totalpopcount = (s.totalpopcount + w.counts.popcount) % 2 ^ 64 },
    record w { place = add_allocs },
  )
  act tid s w add_allocs x = (
    record s { total_allocs = (s.total_allocs + w.allocs) % 2 ^ 64 },
    record w { place = finished },
  )
  act tid s w finished x = (s, w)

  pub record State : Type 0 where
    pub shared : Shared
    pub worker : ℕ → Worker

  unfoldable pub step : State → ℕ → Input → State
  unfolding act
  step s tid x =
      let (shared, w) = act tid s.shared (s.worker tid) (s.worker tid).place x in
      record { shared = shared; worker = update s.worker tid w }

  unfoldable pub run : State → List (ℕ × Input) → State
  run s [] = s
  run s ((tid, x) ∷ turns) = run (step s tid x) turns

  abbrev pub start : State
  start = record {
    shared = record {
      stack = [];
      globalstack = false;
      totalpushcount = 0;
      totalpopcount = 0;
      total_allocs = 0;
    };
    worker = λ _. record { place = waiting; counts = no_counts; allocs = 0 };
  }

-- What `main` prints: the operations and the allocations, and, in a build with PROJ_DEBUG1, the nodes
-- left over. It calls `pop` through `globalstack`, which no thread has set if there is none.
pub record Printed : Type 0 where
  pub operations : ℕ
  pub allocations : ℕ
  pub left_over : ℕ

unfoldable pub finish : Shared → Option Printed
finish s =
    if s.globalstack
    then some (record {
      operations = (s.totalpushcount + s.totalpopcount) % 2 ^ 64;
      allocations = s.total_allocs;
      left_over = leftover s.stack 0;
    })
    else none
