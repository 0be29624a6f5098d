-- ===== src/Exchange.antt =====
-- project3/Exchanger.cpp: `exchange`, called by any number of threads on one slot, an access to the
-- slot or a reading of the clock at a time. Nodes are addresses, and 0 is NULL.
pub mod Slot
pub mod Steps
pub mod Conserves
pub mod Alone
pub mod Visit
pub mod Timeout
mod Tests
use utd_cs6v81_spring.Base.{
  ℕ, zero, suc, ◌+◌, Bool, true, false, Option, none, some, List, [], ◌∷◌, ◌==◌, if◌then◌else◌,
}
use utd_cs6v81_spring.Base.Family.{update}
use utd_cs6v81_spring.Times.{Timespec, less, greater}
use utd_cs6v81_spring.Exchange.Slot.{
  ExchangeState, empty, waiting, busy, word, get, compare_and_set,
}

-- Where a thread stands in `exchange(n)`, with the locals that are live there.
pub data Pc : Type 0 where
  -- Before the reading of the clock that sets `bound`.
  entering : (n : ℕ) → Pc
  -- The outer loop: before the reading of the clock, before `get`, before the compare and swap of
  -- each case.
  checking : (n : ℕ) (bound : Timespec) → Pc
  reading : (n : ℕ) (bound current : Timespec) → Pc
  offering : (n : ℕ) (bound current : Timespec) (otheritem : ℕ) → Pc
  taking : (n : ℕ) (bound : Timespec) (otheritem : ℕ) → Pc
  -- The inner loop: before the reading of the clock, before `get`.
  watching : (n : ℕ) (bound : Timespec) → Pc
  looking : (n : ℕ) (bound current : Timespec) → Pc
  -- After it: before the compare and swap that takes the offer back, before the last `get`.
  withdrawing : (n : ℕ) → Pc
  collecting : (n : ℕ) → Pc
  -- Before `slot.set(NULL, EMPTY)`.
  clearing : (otheritem : ℕ) → Pc
  -- The node returned, or the TimeoutException of a call with `n`.
  returned : (otheritem : ℕ) → Pc
  timed_out : (n : ℕ) → Pc

-- `bound.tv_nsec += NANO_DUR`
abbrev pub nano_dur : ℕ
nano_dur = 512

abbrev pub bound_from : Timespec → Timespec
bound_from now = record now { tv_nsec = now.tv_nsec + nano_dur }

-- The test of the inner loop.
abbrev pub watch : ℕ → Timespec → Timespec → Pc
watch n bound current = if less current bound then watching n bound else withdrawing n

-- The switch on the state; the bits 3 match no case.
abbrev pub dispatch : ℕ → Timespec → Timespec → ℕ × Option ExchangeState → Pc
dispatch n bound current (item, some empty) = offering n bound current item
dispatch n bound current (item, some waiting) = taking n bound item
dispatch n bound current (item, some busy) = checking n bound
dispatch n bound current (item, none) = checking n bound

abbrev pub look : ℕ → Timespec → Timespec → ℕ × Option ExchangeState → Pc
look n bound current (item, some busy) = clearing item
look n bound current (item, s) = watch n bound current

-- The outcome of a compare and swap, with the places after it has stored and after it has not.
abbrev pub swapped : Bool × ℕ → Pc → Pc → ℕ × Pc
swapped (stored, w) yes_pc no_pc = (w, if stored then yes_pc else no_pc)

-- One step of a thread, on the word of the slot; `now` is what the clock says.
unfoldable pub move : ℕ → Pc → Timespec → ℕ × Pc
move w (entering n) now = (w, checking n (bound_from now))
move w (checking n bound) now = (w, if greater now bound then timed_out n else reading n bound now)
move w (reading n bound current) now = (w, dispatch n bound current (get w))
move w (offering n bound current item) now =
    swapped (compare_and_set w item n empty waiting) (watch n bound current) (checking n bound)
move w (taking n bound item) now =
    swapped (compare_and_set w item n waiting busy) (returned item) (checking n bound)
move w (watching n bound) now = (w, looking n bound now)
move w (looking n bound current) now = (w, look n bound current (get w))
move w (withdrawing n) now =
    swapped (compare_and_set w n 0 waiting empty) (timed_out n) (collecting n)
move w (collecting n) now = (w, clearing (get w).0)
move w (clearing item) now = (word 0 empty, returned item)
move w (returned item) now = (w, returned item)
move w (timed_out n) now = (w, timed_out n)

pub record State : Type 0 where
  pub slot : ℕ
  pub pc : ℕ → Pc

-- The constructor of Slot, and a call of `exchange` by each thread.
abbrev pub start : (ℕ → ℕ) → State
start offers = record { slot = 0; pc = λ i. entering (offers i) }

unfoldable pub step : State → ℕ → Timespec → State
unfolding move
step s i now = let (w, p) = move s.slot (s.pc i) now in record { slot = w; pc = update s.pc i p }

unfoldable pub run : State → List (ℕ × Timespec) → State
run s [] = s
run s ((i, now) ∷ turns) = run (step s i now) turns
