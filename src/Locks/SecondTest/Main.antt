-- ===== src/Locks/SecondTest/Main.antt =====
-- project2/second_test.cpp, main: the arguments, the threads, what is printed and what is returned.
use utd_cs6v81_spring.Base.{
  ℕ, zero, suc, ◌+◌, ◌%◌, ◌^◌, ◌<◌, ◌≡◌, refl, ap, Bool, true, false, List, [], ◌∷◌, ◌++◌, Text,
  codes, length, max, ◌==◌, arith, if◌then◌else◌,
}
use utd_cs6v81_spring.Base.Family.{Within, tally, tally_same}
use utd_cs6v81_spring.Times.{Timespec}
use utd_cs6v81_spring.Harness.Args.{Boost}
use utd_cs6v81_spring.Harness.Args.Laws.{IsBoost}
use utd_cs6v81_spring.Harness.Main.{joined, joined-all}
use utd_cs6v81_spring.Locks.Create.{
  CommonArgs, default_args, Environment, create_lock, create_lock-Excludes,
}
use utd_cs6v81_spring.Locks.Algorithm.{Algorithm, Excludes}
use utd_cs6v81_spring.Locks.Args.{Parsed, parsed, exited, parse_args}
use utd_cs6v81_spring.Locks.Args.Laws.{IsDecimal, Fits, options_of, parse_args-options_of}
use utd_cs6v81_spring.Locks.Launch.{
  Spawned, all_made, failed, is_whole, test_common, test_common-whole,
}
use utd_cs6v81_spring.Locks.SecondTest.{Place, finished, Work, Client, client_run, client_start}
use utd_cs6v81_spring.Locks.SecondTest.Invariant.{written, client_run-Inv, start-Inv}

-- The end of `main`: an exit of parse_args, the value returned with the lines printed, or none
-- while it waits for a thread.
pub data Ended : Type 0 where
  left : (lines : List Text) → Ended
  returned : (retval : ℕ) (lines : List Text) → Ended
  joining : Ended

abbrev pub is_finished : Place → Bool
is_finished finished = true
is_finished p = false

abbrev pub has_ended : Work → Bool
has_ended w = is_finished w.place

-- The loops that add up the elements of an array, in a uint64_t.
unfoldable pub sum_of : (Work → ℕ) → ℕ → (ℕ → Work) → ℕ
sum_of f zero work = 0
sum_of f (suc k) work = (sum_of f k work + f (work k)) % 2 ^ 64

abbrev pub tcounter_of : Work → ℕ
tcounter_of w = w.tcounter

abbrev pub tnsec_of : Work → ℕ
tnsec_of w = w.tnsec

abbrev pub after_threads : Spawned → (all_ended : Bool) → Ended → Ended
after_threads (all_made threads) all_ended rest = if all_ended then rest else joining
after_threads (failed threads) all_ended rest = rest

-- A time as it is printed: the nanoseconds have no leading zeros.
abbrev pub shown : (ℕ → Text) → Timespec → Text
shown lu t = lu t.tv_sec ++ codes "." ++ lu t.tv_nsec

-- The part of `main` after the threads; `start` and `current` are its two times.
unfoldable pub report :
    {a : Algorithm} → (ℕ → Text) → (start current : Timespec) → (num_threads : ℕ) → Client a → Ended
report lu start current num_threads s =
    returned (if sum_of tcounter_of num_threads s.work == s.counter then 0 else 1) (
      (codes "Test Start : " ++ shown lu start)
      ∷ (codes " Test Stop : " ++ shown lu current)
      ∷ (codes "counter is: " ++ lu s.counter)
      ∷ (codes "total_nsec: " ++ lu (sum_of tnsec_of num_threads s.work))
      ∷ [])

-- `start.tv_sec += 1`, and `stop.tv_sec += num_seconds` in the workers.
abbrev pub delayed : Timespec → ℕ → Timespec
delayed t seconds = record t { tv_sec = t.tv_sec + seconds }

module _ (env : Environment) (b : Boost) (lu : ℕ → Text) (creates : ℕ → Bool)
    (unset now current : Timespec) (turns : List (ℕ × Timespec)) where
  unfoldable pub ran : (carg : CommonArgs) → Client (create_lock env carg)
  ran carg =
      let start = delayed now 1 in
      let a = create_lock env carg in
      client_run a start (delayed start carg.num_seconds) (client_start a unset) turns

  -- From the arguments on: `now` and `current` are the readings of the clock in `main`, and the
  -- turns of the threads are those until `main` goes on. It does not look at what `test_common`
  -- returns.
  unfoldable pub work : CommonArgs → Ended
  work carg =
      let s = ran carg in
      after_threads (test_common creates carg) (joined has_ended carg.num_threads s.work)
        (report lu (delayed now 1) current carg.num_threads s)

  abbrev pub after_args : Parsed → Ended
  after_args (parsed carg) = work carg
  after_args (exited lines) = left lines

  unfoldable pub main : Text → List Text → Ended
  unfolding work
  main program args = after_args (parse_args b program args default_args)

after_threads-whole :
    (s : Spawned) (all_ended : Bool) (rest : Ended)
    → is_whole s ≡ true
    → all_ended ≡ true
    → after_threads s all_ended rest ≡ rest
after_threads-whole (all_made threads) all_ended rest e h = rw h refl
after_threads-whole (failed threads) all_ended rest e h = cc

sum_of-tally : (f : Work → ℕ) (k : ℕ) (work : ℕ → Work) → sum_of f k work ≡ tally f k work % 2 ^ 64
unfolding sum_of tally
sum_of-tally f zero work = omega arith
sum_of-tally f (suc k) work = omega (arith, sum_of-tally f k work)

written-finished : (w : Work) → w.place ≡ finished → written w ≡ tcounter_of w
written-finished w e = ground (arith, e)

-- Over any lock that excludes, once every thread has ended, the counter is the sum of the threads'
-- own counts.
counts_agree :
    (a : Algorithm) (n : ℕ) (start stop unset : Timespec) (turns : List (ℕ × Timespec))
    → Excludes a n
    → length turns < 2 ^ 64
    → Within n turns
    → ((i : ℕ)
        → i < n
        → ((client_run a start stop (client_start a unset) turns).work i).place ≡ finished)
    → let s = client_run a start stop (client_start a unset) turns in
      sum_of tcounter_of n s.work ≡ s.counter
counts_agree a n start stop unset turns x small within done =
    let s = client_run a start stop (client_start a unset) turns in
    let inv =
      client_run-Inv a n start stop 0 (client_start a unset) turns x (omega arith) within
        (start-Inv a n unset) in
    let same : tally written n s.work ≡ tally tcounter_of n s.work =
      tally_same written tcounter_of n s.work (λ i b. written-finished (s.work i) (done i b)) in
    omega (arith, sum_of-tally tcounter_of n s.work, inv.exact, same)

-- second_test with any of the five locks, BackoffLock on memory that reads clear, delays, numbers
-- of seconds and of threads of 32 bits on its command line, when pthread_create never fails, and
-- the threads interleaved in any way for fewer than 2 ^ 64 steps: once every thread has ended,
-- `main` prints its report and returns 0, since the counter is the sum of what the threads have
-- counted each, modulo 2 ^ 64.
pub second_test_main :
    (env : Environment) (b : Boost) (decimal : ℕ → Text) (creates : ℕ → Bool)
    (unset now current : Timespec) (program : Text) (c : CommonArgs) (turns : List (ℕ × Timespec))
    → env.backoff_memory ≡ false
    → IsBoost b decimal
    → IsDecimal decimal
    → Fits c
    → ((j : ℕ) → creates j ≡ true)
    → length turns < 2 ^ 64
    → Within c.num_threads turns
    → ((i : ℕ)
        → i < c.num_threads
        → ((ran env b decimal creates unset now current turns
              (record c { max_delay = max c.min_delay c.max_delay })).work
            i).place
          ≡ finished)
    → let s =
        ran env b decimal creates unset now current turns
          (record c { max_delay = max c.min_delay c.max_delay }) in
      (s.counter ≡ tally tcounter_of c.num_threads s.work % 2 ^ 64)
      × (main env b decimal creates unset now current turns program (options_of decimal c)
          ≡ returned 0 (
              (codes "Test Start : " ++ shown decimal (delayed now 1))
              ∷ (codes " Test Stop : " ++ shown decimal current)
              ∷ (codes "counter is: " ++ decimal s.counter)
              ∷ (codes "total_nsec: " ++ decimal (sum_of tnsec_of c.num_threads s.work))
              ∷ []))
unfolding main work ran report
second_test_main env b decimal creates unset now current program c turns clear l digits fits all
      small within done =
    let carg : CommonArgs = record c { max_delay = max c.min_delay c.max_delay } in
    let s = ran env b decimal creates unset now current turns carg in
    let parse = parse_args-options_of b decimal program c default_args l digits fits in
    let agree =
      counts_agree (create_lock env carg) c.num_threads (delayed now 1)
        (delayed (delayed now 1) c.num_seconds) unset turns
        (create_lock-Excludes env clear carg fits.num_threads) small within done in
    let ended = joined-all has_ended c.num_threads s.work (λ i q. ap is_finished (done i q)) in
    let end =
      after_threads-whole (test_common creates carg) (joined has_ended c.num_threads s.work)
        (report decimal (delayed now 1) current c.num_threads s)
        (test_common-whole creates carg all).0 ended in
    let equal : (sum_of tcounter_of c.num_threads s.work == s.counter) ≡ true =
      ground (arith, agree) in
    (
      omega (arith, agree, sum_of-tally tcounter_of c.num_threads s.work),
      rw (parse, end, equal) refl,
    )
