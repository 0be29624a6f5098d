-- ===== src/Locks/SimpleTest/Main.antt =====
-- project2/simple_test.cpp, main: the arguments, the threads, and what is printed.
use utd_cs6v81_spring.Base.{
  ℕ, ◌*◌, ◌<◌, ◌≡◌, refl, Bool, true, false, List, Text, leb, max, arith, if◌then◌else◌,
}
use utd_cs6v81_spring.Harness.Args.{Boost}
use utd_cs6v81_spring.Harness.Args.Laws.{IsBoost}
use utd_cs6v81_spring.Harness.Main.{joined, joined-all}
use utd_cs6v81_spring.Locks.Algorithm.{Below}
use utd_cs6v81_spring.Locks.Create.{CommonArgs, default_args, Environment, create_lock}
use utd_cs6v81_spring.Locks.Args.{Parsed, parsed, exited, parse_args}
use utd_cs6v81_spring.Locks.Args.Laws.{IsDecimal, Fits, options_of, parse_args-options_of}
use utd_cs6v81_spring.Locks.Launch.{
  Spawned, all_made, failed, is_whole, test_common, test_common-whole,
}
use utd_cs6v81_spring.Locks.SimpleTest.{Work, target, client_run, client_start}
use utd_cs6v81_spring.Locks.SimpleTest.Result.{simple_test_prints}

-- The end of `main`: an exit of parse_args, the number that it prints, or none while it waits for a
-- thread.
pub data Ended : Type 0 where
  left : (lines : List Text) → Ended
  printed : (counter : ℕ) → Ended
  joining : Ended

abbrev pub has_ended : Work → Bool
has_ended w = leb target w.rounds

-- `main` does not look at what `test_common` returns: after a failure it prints the counter at once.
abbrev pub after_threads : Spawned → (all_ended : Bool) → (counter : ℕ) → Ended
after_threads (all_made threads) all_ended counter = if all_ended then printed counter else joining
after_threads (failed threads) all_ended counter = printed counter

module _ (env : Environment) (b : Boost) (creates : ℕ → Bool) (turns : List ℕ) where
  -- The turns of the threads until `main` goes on.
  unfoldable pub work : CommonArgs → Ended
  work carg =
      let a = create_lock env carg in
      let s = client_run a (client_start a) turns in
      after_threads (test_common creates carg) (joined has_ended carg.num_threads s.work) s.counter

  abbrev pub after_args : Parsed → Ended
  after_args (parsed carg) = work carg
  after_args (exited lines) = left lines

  unfoldable pub main : Text → List Text → Ended
  unfolding work
  main program args = after_args (parse_args b program args default_args)

after_threads-whole :
    (s : Spawned) (all_ended : Bool) (counter : ℕ)
    → is_whole s ≡ true
    → all_ended ≡ true
    → after_threads s all_ended counter ≡ printed counter
after_threads-whole (all_made threads) all_ended counter e h = rw h refl
after_threads-whole (failed threads) all_ended counter e h = cc

-- simple_test with any of the five locks, BackoffLock on memory that reads clear, delays, numbers
-- of seconds and of threads of 32 bits on its command line, when pthread_create never fails, and
-- the threads interleaved in any way: once every thread has done its 10000 rounds, `main` prints
-- 10000 for each.
pub simple_test_main :
    (env : Environment) (b : Boost) (decimal : ℕ → Text) (creates : ℕ → Bool) (program : Text)
    (c : CommonArgs) (turns : List ℕ)
    → env.backoff_memory ≡ false
    → IsBoost b decimal
    → IsDecimal decimal
    → Fits c
    → ((j : ℕ) → creates j ≡ true)
    → Below c.num_threads turns
    → (let a = create_lock env (record c { max_delay = max c.min_delay c.max_delay }) in
        (i : ℕ)
        → i < c.num_threads
        → ((client_run a (client_start a) turns).work i).rounds ≡ target)
    → main env b creates turns program (options_of decimal c) ≡ printed (c.num_threads * target)
unfolding main work
simple_test_main env b decimal creates program c turns clear l digits fits all below done =
    let carg : CommonArgs = record c { max_delay = max c.min_delay c.max_delay } in
    let a = create_lock env carg in
    let s = client_run a (client_start a) turns in
    let parse = parse_args-options_of b decimal program c default_args l digits fits in
    let counted = simple_test_prints env carg turns clear fits.num_threads below done in
    let ended = joined-all has_ended c.num_threads s.work (λ i q. ground (arith, done i q)) in
    let end =
      after_threads-whole (test_common creates carg) (joined has_ended c.num_threads s.work)
        s.counter (test_common-whole creates carg all).0 ended in
    rw (parse, end, counted) refl
