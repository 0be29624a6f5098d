-- ===== src/Locks/Launch.antt =====
-- project2/test_common.cpp, test_common: the lock and the threads of a test, and
-- project2/simple_test.cpp, main.
use utd_cs6v81_spring.Base.{
  ℕ, zero, suc, ◌+◌, ◌≡◌, refl, Bool, true, false, List, [], ◌∷◌, length, arith, if◌then◌else◌,
}
use utd_cs6v81_spring.Locks.Create.{CommonArgs}

-- All threads get the same lock, and the same arguments.
pub record WorkerThreadArg : Type 0 where
  pub tnum : ℕ
  pub carg : CommonArgs

-- What `test_common` returns: 0 once its threads are joined, or -1 when pthread_create has failed;
-- and the threads that it has made, which in that case run on.
pub data Spawned : Type 0 where
  all_made : (threads : List WorkerThreadArg) → Spawned
  failed : (threads : List WorkerThreadArg) → Spawned

abbrev after_thread : WorkerThreadArg → Spawned → Spawned
after_thread arg (all_made threads) = all_made (arg ∷ threads)
after_thread arg (failed threads) = failed (arg ∷ threads)

-- The loop that makes the `k` threads that are left, the next of them `i`; `creates i` says whether
-- pthread_create makes it.
unfoldable pub spawn : (ℕ → Bool) → CommonArgs → (k i : ℕ) → Spawned
spawn creates carg zero i = all_made []
spawn creates carg (suc k) i =
    let rest = spawn creates carg k (i + 1) in
    if creates i then after_thread (record { tnum = i; carg = carg }) rest else failed []

-- Up to the loop that joins the threads.
unfoldable pub test_common : (ℕ → Bool) → CommonArgs → Spawned
unfolding spawn
test_common creates carg = spawn creates carg carg.num_threads 0

abbrev pub threads_of : Spawned → List WorkerThreadArg
threads_of (all_made threads) = threads
threads_of (failed threads) = threads

abbrev pub is_whole : Spawned → Bool
is_whole (all_made threads) = true
is_whole (failed threads) = false

after_thread-whole :
    (arg : WorkerThreadArg) (s : Spawned)
    → is_whole s ≡ true
    → (is_whole (after_thread arg s) ≡ true)
      × (length (threads_of (after_thread arg s)) ≡ length (threads_of s) + 1)
after_thread-whole arg (all_made threads) e = (refl, omega arith)
after_thread-whole arg (failed threads) e = cc

spawn-whole :
    (creates : ℕ → Bool) (carg : CommonArgs) (k i : ℕ)
    → ((j : ℕ) → creates j ≡ true)
    → (is_whole (spawn creates carg k i) ≡ true)
      × (length (threads_of (spawn creates carg k i)) ≡ k)
unfolding spawn
spawn-whole creates carg zero i all = (refl, refl)
spawn-whole creates carg (suc k) i all =
    let (whole, long) = spawn-whole creates carg k (i + 1) all in
    let (more, one) =
      after_thread-whole (record { tnum = i; carg = carg }) (spawn creates carg k (i + 1)) whole in
    rw (all i) (more, omega (arith, one, long))

-- When pthread_create never fails, `test_common` makes all its threads.
pub test_common-whole :
    (creates : ℕ → Bool) (carg : CommonArgs)
    → ((j : ℕ) → creates j ≡ true)
    → (is_whole (test_common creates carg) ≡ true)
      × (length (threads_of (test_common creates carg)) ≡ carg.num_threads)
unfolding test_common
test_common-whole creates carg all = spawn-whole creates carg carg.num_threads 0 all
