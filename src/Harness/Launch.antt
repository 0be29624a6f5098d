-- ===== src/Harness/Launch.antt =====
-- project3/TestCommon.cpp, testCommon: the stack, the threads, and the times between which they work.
use utd_cs6v81_spring.Base.{
  ℕ, zero, suc, ◌+◌, ◌*◌, ◌≤◌, ◌<◌, ◌≡◌, refl, List, [], ◌∷◌, ◌++◌, length, length-append, get_or,
  arith,
}
use utd_cs6v81_spring.Times.{Timespec, nsec_sec}
use utd_cs6v81_spring.Times.Order.{nanoseconds}
use utd_cs6v81_spring.Harness.Args.{StackType, lock, lockfree, elimination, Options}

-- The class of the object that `new` makes.
pub data StackClass : Type 0 where
  lock_stack lockfree_stack elimination_stack : StackClass

unfoldable pub class_of : StackType → StackClass
class_of lockfree = lockfree_stack
class_of elimination = elimination_stack
class_of lock = lock_stack

-- All threads get the same stack and the same options.
pub record ThreadArgs : Type 0 where
  pub stack : StackClass
  pub tid : ℕ

-- The loop that makes the threads, for the `k` that are left, the next of them `i`.
unfoldable pub make_threads : StackClass → (k i : ℕ) → List ThreadArgs
make_threads stack zero i = []
make_threads stack (suc k) i = record { stack = stack; tid = i } ∷ make_threads stack k (i + 1)

-- What the threads see from their creation on, when the clock has given `now`.
unfoldable pub armed : Options → Timespec → Options
armed o now =
    let starttime = record now { tv_sec = now.tv_sec + 100 } in
    record o { starttime = starttime; stoptime = starttime }

-- And once all have been created, when the clock has given `start`.
unfoldable pub released : Options → Timespec → Options
released o start =
    let starttime = record (o.starttime) { tv_sec = start.tv_sec + 1 } in
    record o {
      starttime = starttime;
      stoptime = record (o.stoptime) { tv_sec = starttime.tv_sec + o.seconds };
    }

pub record Launch : Type 0 where
  pub threads : List ThreadArgs
  pub before : Options
  pub after : Options

unfoldable pub test_common : Options → (now start : Timespec) → Launch
unfolding armed released
test_common o now start =
    let before = armed o now in
    record {
      threads = make_threads (class_of o.stacktype) o.numthreads 0;
      before = before;
      after = released before start;
    }

-- The loop that deletes the arguments once all threads have been joined, the last of them first.
unfoldable pub delete_args : List ThreadArgs → List ThreadArgs
delete_args [] = []
delete_args (a ∷ rest) = delete_args rest ++ (a ∷ [])

make_threads-length : (stack : StackClass) (k i : ℕ) → length (make_threads stack k i) ≡ k
unfolding make_threads
make_threads-length stack zero i = refl
make_threads-length stack (suc k) i = omega (arith, make_threads-length stack k (i + 1))

make_threads-get_or :
    (stack : StackClass) (k i j n : ℕ) (d : ThreadArgs)
    → j < k
    → n ≡ i + j
    → get_or (make_threads stack k i) j d ≡ record { stack = stack; tid = n }
unfolding make_threads
make_threads-get_or stack zero i j n d h e = absurd (omega arith)
make_threads-get_or stack (suc k) i zero n d h e = let same : n ≡ i = omega arith in rw same refl
make_threads-get_or stack (suc k) i (suc j) n d h e =
    make_threads-get_or stack k (i + 1) j n d (omega arith) (omega arith)

delete_args-length : (args : List ThreadArgs) → length (delete_args args) ≡ length args
unfolding delete_args
delete_args-length [] = refl
delete_args-length (a ∷ rest) =
    omega (arith, length-append (delete_args rest) (a ∷ []), delete_args-length rest)

-- The threads have their positions for numbers, and all of them one stack of the class `stack`.
abbrev pub AllOn : StackClass → ℕ → List ThreadArgs → Type 0
AllOn stack n threads =
    (i : ℕ) (d : ThreadArgs) → i < n → get_or threads i d ≡ record { stack = stack; tid = i }

-- testCommon, for readings of the clock whose nanoseconds are less than a second: it makes
-- `numthreads` threads, with their positions for numbers and one stack, a LockStack for the type
-- LOCK, a LockFreeStack for LOCKFREE and an EliminationStack for ELIMINATION; while it makes them,
-- the start is 100 seconds after the first reading; then the start is after the second reading, by
-- at most two seconds, and the stop is `seconds` seconds after the start. At its end it deletes as
-- many arguments as it has made threads.
pub test_common_lem :
    (o : Options) (now start : Timespec)
    → now.tv_nsec < nsec_sec
    → start.tv_nsec < nsec_sec
    → let l = test_common o now start in
      (length l.threads ≡ o.numthreads)
      × AllOn lock_stack o.numthreads
          (test_common (record o { stacktype = lock }) now start).threads
      × AllOn lockfree_stack o.numthreads
          (test_common (record o { stacktype = lockfree }) now start).threads
      × AllOn elimination_stack o.numthreads
          (test_common (record o { stacktype = elimination }) now start).threads
      × (nanoseconds l.before.starttime ≡ nanoseconds now + 100 * nsec_sec)
      × (nanoseconds start < nanoseconds l.after.starttime)
      × (nanoseconds l.after.starttime ≤ nanoseconds start + 2 * nsec_sec)
      × (nanoseconds l.after.stoptime ≡ nanoseconds l.after.starttime + o.seconds * nsec_sec)
      × (length (delete_args l.threads) ≡ o.numthreads)
unfolding test_common class_of
test_common_lem o now start h k = (
  make_threads-length (class_of o.stacktype) o.numthreads 0,
  (λ i d b. make_threads-get_or lock_stack o.numthreads 0 i i d b (omega arith)),
  (λ i d b. make_threads-get_or lockfree_stack o.numthreads 0 i i d b (omega arith)),
  (λ i d b. make_threads-get_or elimination_stack o.numthreads 0 i i d b (omega arith)),
  omega arith,
  omega arith,
  omega arith,
  omega arith,
  omega (
    arith,
    delete_args-length (make_threads (class_of o.stacktype) o.numthreads 0),
    make_threads-length (class_of o.stacktype) o.numthreads 0,
  ),
)
