-- ===== src/Locks/SecondTest.antt =====
-- project2/second_test.cpp: every thread counts under the lock, in one counter and in one of its
-- own, until a time. A step is an access to the counter, a step of a method of the lock, or a
-- reading of the clock.
pub mod Invariant
pub mod Main
mod Tests
use utd_cs6v81_spring.Base.{ℕ, ◌+◌, ◌%◌, ◌^◌, Bool, List, [], ◌∷◌, if◌then◌else◌}
use utd_cs6v81_spring.Base.Family.{update}
use utd_cs6v81_spring.Times.{Timespec, ts_lt, ts_sub}
use utd_cs6v81_spring.Locks.Algorithm.{
  Algorithm, Phase, outside, locking, inside, unlocking, is_outside, Threads, step, fresh,
}

-- Where a thread stands in its own code: in the loop that waits for the start, before the test of
-- its main loop, from the call of `lock` to the reading of the clock after it, before the read and
-- the write of `counter++`, from there to the return of `unlock`, before the two additions to its
-- own counts, at the end.
pub data Place : Type 0 where
  waiting checking timing ready : Place
  loaded : (value : ℕ) → Place
  stored counting adding finished : Place

-- The locals of a thread, with its elements of `tcounters` and `tnsecs`.
pub record Work : Type 0 where
  pub place : Place
  pub lock1 : Timespec
  pub lock2 : Timespec
  pub tcounter : ℕ  -- uint64_t
  pub tnsec : ℕ  -- uint64_t

module _ (a : Algorithm) where
  open a use {Locking, Unlocking}

  pub record Client : Type 0 where
    pub lock : Threads a
    pub counter : ℕ  -- uint64_t
    pub work : ℕ → Work

  -- A step that only concerns the thread's own locals.
  abbrev pub with_work : Client → ℕ → Work → Client
  with_work s i w = record s { work = update s.work i w }

  -- A step outside of the lock, at the time `now`.
  unfoldable pub outside_act :
      (start stop : Timespec) → Client → ℕ → Work → Place → Timespec → Client
  outside_act start stop s i w waiting now =
      if ts_lt now start then s else with_work s i (record w { place = checking; lock2 = now })
  outside_act start stop s i w checking now =
      if ts_lt w.lock2 stop
      then record s {
        lock = step a s.lock i;
        work = update s.work i (record w { place = timing; lock1 = now });
      }
      else with_work s i (record w { place = finished })
  outside_act start stop s i w counting now =
      with_work s i (record w { place = adding; tcounter = (w.tcounter + 1) % 2 ^ 64 })
  outside_act start stop s i w adding now =
      with_work s i
        (record w { place = checking; tnsec = (w.tnsec + ts_sub w.lock2 w.lock1) % 2 ^ 64 })
  outside_act start stop s i w place now = s

  -- A step between the return of `lock` and the call of `unlock`.
  unfoldable pub inside_act : Client → ℕ → Work → Place → Timespec → Client
  inside_act s i w timing now = with_work s i (record w { place = ready; lock2 = now })
  inside_act s i w ready now = with_work s i (record w { place = loaded s.counter })
  inside_act s i w (loaded v) now = record s {
    counter = (v + 1) % 2 ^ 64;
    work = update s.work i (record w { place = stored });
  }
  inside_act s i w stored now = record s { lock = step a s.lock i }
  inside_act s i w place now = s

  unfoldable pub act :
      (start stop : Timespec) → Client → ℕ → Phase Locking Unlocking → Timespec → Client
  act start stop s i outside now = outside_act start stop s i (s.work i) (s.work i).place now
  act start stop s i (locking l) now = record s { lock = step a s.lock i }
  act start stop s i inside now = inside_act s i (s.work i) (s.work i).place now
  act start stop s i (unlocking u) now =
      let lock' = step a s.lock i in
      record s {
        lock = lock';
        work =
            if is_outside (lock'.phase i)
            then update s.work i (record (s.work i) { place = counting })
            else s.work;
      }

  unfoldable pub client_step : (start stop : Timespec) → Client → ℕ → Timespec → Client
  client_step start stop s i now = act start stop s i (s.lock.phase i) now

  unfoldable pub client_run : (start stop : Timespec) → Client → List (ℕ × Timespec) → Client
  client_run start stop s [] = s
  client_run start stop s ((i, now) ∷ turns) =
      client_run start stop (client_step start stop s i now) turns

  -- `counter` is static, `main` sets the elements of the arrays to 0, and `unset` stands for times
  -- that are not set.
  abbrev pub client_start : Timespec → Client
  client_start unset = record {
    lock = fresh a;
    counter = 0;
    work = λ _. record { place = waiting; lock1 = unset; lock2 = unset; tcounter = 0; tnsec = 0 };
  }
