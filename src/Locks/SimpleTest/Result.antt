-- ===== src/Locks/SimpleTest/Result.antt =====
-- What the test prints.
use utd_cs6v81_spring.Base.{ℕ, ◌*◌, ◌^◌, ◌≤◌, ◌<◌, ◌≡◌, refl, false, List, [], ◌∷◌, arith}
use utd_cs6v81_spring.Base.Family.{tally, tally_const, tally_bounded}
use utd_cs6v81_spring.Locks.Algorithm.{Algorithm, Phase, Below, Excludes, run, calls}
use utd_cs6v81_spring.Locks.Create.{CommonArgs, Environment, create_lock, create_lock-Excludes}
use utd_cs6v81_spring.Locks.Flag.{Counted-Excludes}
use utd_cs6v81_spring.Locks.Spin.{tas_lock}
use utd_cs6v81_spring.Locks.Spin.Exclusion.{tas_flag, tas_lock-IsFlagged}
use utd_cs6v81_spring.Locks.SimpleTest.Completes.{
  Calm, one_by_one, Below-one_by_one, one_by_one-Finished,
}
use utd_cs6v81_spring.Locks.SimpleTest.{
  ready, Work, target, Client, client_step, client_run, client_start,
}
use utd_cs6v81_spring.Locks.SimpleTest.Invariant.{written, Agree, Inv, client_step-Inv}

module _ (a : Algorithm) (n : ℕ) where
  start_Inv : Inv a n (client_start a)
  unfolding run calls
  start_Inv =
      let none_written : tally written n (λ _. record { rounds = 0; stage = ready }) ≡ n * 0 =
        tally_const written 0 n (λ _. record { rounds = 0; stage = ready }) (λ i _. refl) in
      record {
        trace = record { schedule = []; below = tt; leads = refl; few = omega arith };
        exact = omega (arith, none_written);
        agree = λ i h. omega arith;
      }

  written_all :
      (k : ℕ) (p : Phase a.Locking a.Unlocking) (w : Work)
      → Agree k p w.stage w.rounds
      → w.rounds ≡ target
      → written w ≡ target
  written_all k p w h e = ground arith

  run_Inv :
      (s : Client a) (is : List ℕ)
      → Excludes a n
      → n < 2 ^ 32
      → Below n is
      → Inv a n s
      → Inv a n (client_run a s is)
  unfolding client_run
  run_Inv s [] x small b inv = inv
  run_Inv s (i ∷ is) x small b inv =
      run_Inv (client_step a s i) is x small b.1 (client_step-Inv a n inv i b.0 x small)

  written-le :
      (k : ℕ) (p : Phase a.Locking a.Unlocking) (w : Work)
      → Agree k p w.stage w.rounds
      → written w ≤ target
  written-le k p w h = ground arith

  -- Over any lock that excludes: when every thread has done its rounds and has left the lock, no
  -- increment is lost.
  pub counter_exact :
      (is : List ℕ)
      → Excludes a n
      → n < 2 ^ 32
      → Below n is
      → ((i : ℕ) → i < n → ((client_run a (client_start a) is).work i).rounds ≡ target)
      → (client_run a (client_start a) is).counter ≡ n * target
  counter_exact is x small b done =
      let s = client_run a (client_start a) is in
      let inv = run_Inv (client_start a) is x small b start_Inv in
      let all : tally written n s.work ≡ n * target =
        tally_const written target n s.work
          (λ i h. written_all s.counter (s.lock.phase i) (s.work i) (inv.agree i h) (done i h)) in
      omega (arith, inv.exact, all)

-- simple_test with any of the five locks, BackoffLock on clear memory: once every thread has done its
-- 10000 rounds, the counter that `main` prints is 10000 for each thread.
pub simple_test_prints :
    (env : Environment) (carg : CommonArgs) (is : List ℕ)
    → env.backoff_memory ≡ false
    → carg.num_threads < 2 ^ 32
    → Below carg.num_threads is
    → ((i : ℕ)
        → i < carg.num_threads
        → ((client_run (create_lock env carg) (client_start (create_lock env carg)) is).work
            i).rounds
          ≡ target)
    → (client_run (create_lock env carg) (client_start (create_lock env carg)) is).counter
      ≡ carg.num_threads * target
simple_test_prints env carg is clear small b done =
    counter_exact (create_lock env carg) carg.num_threads is
      (create_lock-Excludes env clear carg small) small b done

-- simple_test with any of the five locks, BackoffLock on clear memory, at every moment: the counter
-- is the number of increments written so far, and no thread has done more than 10000 rounds.
pub simple_test_counts :
    (env : Environment) (carg : CommonArgs) (is : List ℕ)
    → env.backoff_memory ≡ false
    → carg.num_threads < 2 ^ 32
    → Below carg.num_threads is
    → let s = client_run (create_lock env carg) (client_start (create_lock env carg)) is in
      (s.counter ≡ tally written carg.num_threads s.work)
      × ((i : ℕ) → i < carg.num_threads → written (s.work i) ≤ target)
simple_test_counts env carg is clear small b =
    let a = create_lock env carg in
    let n = carg.num_threads in
    let s = client_run a (client_start a) is in
    let inv =
      run_Inv a n (client_start a) is (create_lock-Excludes env clear carg small) small b
        (start_Inv a n) in
    let each : (i : ℕ) → i < n → written (s.work i) ≤ target =
      λ i h. written-le a n s.counter (s.lock.phase i) (s.work i) (inv.agree i h) in
    (omega (arith, inv.exact, tally_bounded written target n s.work each), each)

-- simple_test with TASLock and any number of threads: some schedule brings every thread to its 10000
-- rounds, and then the counter is 10000 for each thread.
pub simple_test_finishes :
    (n : ℕ)
    → n < 2 ^ 32
    → (is : List ℕ) × Below n is
      × ((i : ℕ)
          → i < n
          → ((client_run tas_lock (client_start tas_lock) is).work i).rounds ≡ target)
      × ((client_run tas_lock (client_start tas_lock) is).counter ≡ n * target)
simple_test_finishes n small =
    let b = Below-one_by_one target n in
    let calm : Calm (client_start tas_lock) = record {
      free = refl;
      out = λ j. refl;
      set_up = λ j. refl;
    } in
    let all =
      one_by_one-Finished target n (client_start tas_lock) (omega arith) calm (λ i h. refl) in
    (
      one_by_one target n,
      b,
      all.finished,
      counter_exact tas_lock n (one_by_one target n)
          (Counted-Excludes tas_lock tas_flag tas_lock-IsFlagged n refl) small b all.finished,
    )
