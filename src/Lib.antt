-- ===== src/Lib.antt =====
-- Verification of the locks and the concurrent stacks of this repository.
--
-- The repository holds three programs. project2 has five locks behind one class LOCK (TASLock,
-- TTASLock, BackoffLock, ALock, PThreadLock) and tests whose threads use them. project3 has stacks
-- behind one class Stack, and a garbage collector for their nodes. project1 has counters and
-- queues.
--
-- Threads. A method is cut at each access to shared memory. A thread is the place where it stands,
-- with the locals that are live there; the threads are a function from indices to places. A
-- schedule is a list of thread indices (for the stack, with what an idle thread does next), and a
-- run takes the threads' accesses in that order, so a theorem about all schedules is one about all
-- interleavings. Memory is sequentially consistent. Yields and sleeps change no state.
--
-- Base: shared names, Boolean tests, lists with native indices, sums over threads (Base/Family).
-- BoostTypes: project3/Random.h and project2/BackoffLock.h, the types of boost by its version.
-- Locks: project2.
--   Locks/Algorithm: project2/common.h, class LOCK: the record Algorithm, and threads that call
--     lock and unlock in turn (move, step, run). Excludes is what the clients of a lock take.
--   Locks/Flag: why a lock with one flag excludes.
--   Locks/Spin: TASLock.cpp, TTASLock.cpp, BackoffLock.cpp (class BackoffLock), PThreadLock.cpp.
--   Locks/Backoff: BackoffLock.cpp, class Backoff.
--   Locks/Anderson: ALock.cpp. Its invariant (Locks/Anderson/Ghost) counts tickets without a bound;
--     the 64-bit tail stays below 2 ^ 64 as long as lock has been called fewer times than that.
--   Locks/Create: common.h and test_common.cpp, common_args and create_lock.
--   Locks/Args, Locks/Launch: test_common.cpp, parse_args and test_common.
--   Locks/SimpleTest: simple_test.cpp, worker_thread over any lock, and main.
--   Locks/SecondTest: second_test.cpp, worker_thread over any lock, with any readings of the clock,
--     and main. The elements of tcounters and tnsecs stand with the thread that alone writes them.
--   Locks/Samples: values of the parameters, for the tests.
-- Stacks: project3.
--   Stacks/LockFree: LockFreeStack.cpp: trypush, trypop, push, pop, backoff, and the destructor.
--     Nodes are addresses, and no node is deleted while the threads run, as in testone.cpp and in
--     testtwo.cpp without its collector; so `new` hands out no address twice.
--   Stacks/Collector: GarbageCollector.cpp, GarbageCollector and GCNode, one call at a time. The
--     lists are bounded by `capacity` as the code checks it; the loop of dereg runs on fuel, and
--     three rounds are enough for a thread that is the only one registered.
--   Stacks/Locked: LockStack.cpp, each call a step, since it holds the mutex from its first access
--     to its last. The loop of the destructor runs on fuel; as many turns as nodes are enough.
--   Stacks/Elimination: Elimination.cpp: trypush, trypop, push, pop, an access to a step, with the
--     steps of Exchange for the visits to the array, and its destructor. The array has 100
--     exchangers; a draw of the index past its end, after which nothing is defined, is an event
--     (overran), and InBounds says that none has happened. Refines compares it with a list; there a
--     node is pushed at most once, since no node is deleted or used again while the threads run.
-- Exchange: project3/Exchanger.h and Exchanger.cpp. Slot is the word with its two state bits; the
--   module itself is Exchanger::exchange, an access to the slot or a reading of the clock to a
--   step, with any readings; Exchange/Visit is EliminationArray, and Exchange/Timeout the text of a
--   TimeoutException.
-- Harness: project3/TestCommon.cpp, testone.cpp and testtwo.cpp.
--   Harness/Args: parseArgs. A word is a list of character codes; exits are values.
--   Harness/Debug: Common.h, the macros for debugging. Harness/Coins: zeroone, the generator that
--     the workers share, with its seed; one draw at a time.
--   Harness/Launch: testCommon, its threads and the times that it sets.
--   Harness/Rounds, Harness/One, Harness/Two: the workers and what main prints; One/Main and
--     Two/Main are main, from the arguments on. The stack is a LockStack or a LockFreeStack, so a
--     list whose calls take effect at once; a run with an EliminationStack, whose pop may wait for
--     a push instead of returning NULL, is not followed past its options. The workers' start and
--     stop are those that testCommon sets last; until then the start is so late that they only
--     wait. A build with USE_GC is left out.
-- Times: ts_lt and ts_sub of project2/second_test.cpp, and the operators < and > of
--   project3/Common.h. The int64_t of ts_sub is its 64 bits, and an operation that overflows wraps
--   around.
-- Counters: project1/part1.cpp (Racy), part2.cpp (Locked) and part2a.cpp (Atomic), from the
--   arguments of main, over its joins, to what it prints at the end.
-- Queues: project1/part3.cpp. The module itself is LockFreeQueue with its producer and its
--   consumer; Queues/Locked is LockQueue with its condition variable, where a thread in the wait
--   goes on after a signal, or without one; Queues/Main is main with its joins, for numbers that an
--   int holds.
--
-- Parameters. boost's random numbers (Random: a draw lies between bounds that are in order;
-- RealRandom: draws of real numbers), the pthread mutex (Mutex), whether pthread_create fails, what
-- `new` finds in memory (Environment), and boost's to_upper and lexical_cast (Boost), and its
-- iequals (Library).
--
-- Not modelled: testtwo built with USE_GC, the lines that tell of progress, and those that workers
-- print for debugging. Nor are the copy of boost's circular_buffer, which is a library, scripts and
-- papers.

pub mod Base
pub mod BoostTypes
pub mod Times
pub mod Locks
pub mod Exchange
pub mod Stacks
pub mod Harness
pub mod Queues
pub mod Counters
