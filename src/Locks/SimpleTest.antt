-- ===== src/Locks/SimpleTest.antt =====
-- project2/simple_test.cpp: every thread increments one counter 10000 times under the lock.
pub mod Invariant
pub mod Completes
pub mod Result
pub mod Main
mod Tests
use utd_cs6v81_spring.Base.{
  ℕ, zero, suc, ◌+◌, ◌%◌, ◌^◌, Bool, true, false, List, [], ◌∷◌, ltb, if◌then◌else◌,
}
use utd_cs6v81_spring.Base.Family.{update}
use utd_cs6v81_spring.Locks.Algorithm.{
  Algorithm, Phase, outside, locking, inside, unlocking, is_outside, Threads, step, fresh,
}

-- Where a thread stands in `counter++`; `stored` lasts until `unlock` has returned.
pub data Stage : Type 0 where
  ready : Stage
  loaded : (value : ℕ) → Stage
  stored : Stage

-- A thread's loop variable `i` beside it.
pub record Work : Type 0 where
  pub rounds : ℕ
  pub stage : Stage

abbrev pub target : ℕ
target = 10000

module _ (a : Algorithm) where
  open a use {Locking, Unlocking}

  pub record Client : Type 0 where
    pub lock : Threads a
    pub counter : ℕ  -- uint64_t
    pub work : ℕ → Work

  -- `counter++` in two accesses, then the call of `unlock`.
  pub increment : Client → ℕ → Work → Stage → Client
  increment s i w ready = record s {
    work = update s.work i (record w { stage = loaded s.counter });
  }
  increment s i w (loaded v) = record s {
    counter = (v + 1) % 2 ^ 64;
    work = update s.work i (record w { stage = stored });
  }
  increment s i w stored = record s { lock = step a s.lock i }

  -- One access of a thread in `worker_thread`.
  pub act : Client → ℕ → Phase Locking Unlocking → Work → Client
  act s i outside w = if ltb w.rounds target then record s { lock = step a s.lock i } else s
  act s i (locking l) w = record s { lock = step a s.lock i }
  act s i inside w = increment s i w w.stage
  act s i (unlocking u) w =
      let lock' = step a s.lock i in
      if is_outside (lock'.phase i)
      then record s {
        lock = lock';
        work = update s.work i (record { rounds = w.rounds + 1; stage = ready });
      }
      else record s { lock = lock' }

  pub client_step : Client → ℕ → Client
  unfolding act increment
  client_step s i = act s i (s.lock.phase i) (s.work i)

  pub client_run : Client → List ℕ → Client
  client_run s [] = s
  client_run s (i ∷ is) = client_run (client_step s i) is

  -- `counter` is static, so it starts at 0.
  abbrev pub client_start : Client
  client_start = record {
    lock = fresh a;
    counter = 0;
    work = λ _. record { rounds = 0; stage = ready };
  }
