-- ===== src/Locks/Create.antt =====
-- project2/common.h and test_common.cpp: the arguments of a test, and the lock that it uses.
pub mod Free
mod Tests
use utd_cs6v81_spring.Base.{ℕ, ◌<◌, ◌^◌, ◌≡◌, refl, Bool, true, false, List, length}
use utd_cs6v81_spring.Locks.Algorithm.{Algorithm, Excludes, Below, calls, fresh, run, is_inside}
use utd_cs6v81_spring.Locks.Flag.{Counted-Excludes}
use utd_cs6v81_spring.Locks.Backoff.{Random}
use utd_cs6v81_spring.Locks.Spin.{tas_lock, ttas_lock, backoff_lock, Mutex, pthread_lock}
use utd_cs6v81_spring.Locks.Spin.Exclusion.{
  tas_flag, tas_lock-IsFlagged, ttas_lock-IsFlagged, backoff_lock-IsFlagged, pthread_lock-IsFlagged,
}
use utd_cs6v81_spring.Locks.Anderson.{alock}
use utd_cs6v81_spring.Locks.Anderson.Exclusion.{alock-Excludes}

pub data LockType : Type 0 where
  test_taslock test_ttaslock test_backoff test_alock test_pthread : LockType

-- `start`, which only second_test reads, is left out.
pub record CommonArgs : Type 0 where
  pub locktype : LockType
  pub min_delay : ℕ
  pub max_delay : ℕ
  pub num_threads : ℕ
  pub num_seconds : ℕ

abbrev pub default_args : CommonArgs
default_args = record {
  locktype = test_taslock;
  min_delay = 1;
  max_delay = 128;
  num_threads = 10;
  num_seconds = 1;
}

-- What the code takes from elsewhere: boost's random numbers, the mutex of pthreads, and what `new`
-- returns, which holds any bytes.
pub record Environment : Type 1 where
  pub random : Random
  pub mutex : Mutex
  pub backoff_memory : Bool
  pub array_memory : ℕ → List Bool
  pub array_long : (n : ℕ) → length (array_memory n) ≡ n

unfoldable pub create_lock_of : Environment → LockType → CommonArgs → Algorithm
create_lock_of env test_taslock carg = tas_lock
create_lock_of env test_ttaslock carg = ttas_lock
create_lock_of env test_backoff carg =
    backoff_lock env.random env.backoff_memory carg.min_delay carg.max_delay
create_lock_of env test_alock carg = alock (env.array_memory carg.num_threads) carg.num_threads
create_lock_of env test_pthread carg = pthread_lock env.mutex

unfoldable pub create_lock : Environment → CommonArgs → Algorithm
unfolding create_lock_of
create_lock env carg = create_lock_of env carg.locktype carg

module _ (env : Environment) (clear : env.backoff_memory ≡ false) (carg : CommonArgs)
    (small : carg.num_threads < 2 ^ 32) where
  created-Excludes : (t : LockType) → Excludes (create_lock_of env t carg) carg.num_threads
  unfolding create_lock_of
  created-Excludes test_taslock =
      Counted-Excludes tas_lock tas_flag tas_lock-IsFlagged carg.num_threads refl
  created-Excludes test_ttaslock =
      Counted-Excludes ttas_lock tas_flag ttas_lock-IsFlagged carg.num_threads refl
  created-Excludes test_backoff =
      Counted-Excludes _ (λ m. m.state)
        (backoff_lock-IsFlagged env.random env.backoff_memory carg.min_delay carg.max_delay)
        carg.num_threads clear
  created-Excludes test_alock =
      alock-Excludes (env.array_memory carg.num_threads) carg.num_threads
        (env.array_long carg.num_threads) small
  created-Excludes test_pthread =
      Counted-Excludes (pthread_lock env.mutex) env.mutex.held (pthread_lock-IsFlagged env.mutex)
        carg.num_threads env.mutex.fresh_free

  -- Whichever lock the arguments ask for, the threads of the test exclude one another.
  pub create_lock-Excludes : Excludes (create_lock env carg) carg.num_threads
  unfolding create_lock
  create_lock-Excludes = created-Excludes carg.locktype

-- Any of the five locks, BackoffLock on memory that reads clear, with fewer than 2 ^ 32 threads, as
-- the arguments of a test create it: of the threads that call `lock` and `unlock` in turn,
-- interleaved in any order, while `lock` has been called fewer than 2 ^ 64 times, never two are
-- between the return of `lock` and the call of `unlock`.
pub create_lock_exclusive :
    (env : Environment) (carg : CommonArgs) (is : List ℕ) (i j : ℕ)
    → env.backoff_memory ≡ false
    → carg.num_threads < 2 ^ 32
    → Below carg.num_threads is
    → calls (create_lock env carg) (fresh (create_lock env carg)) is < 2 ^ 64
    → i < carg.num_threads
    → j < carg.num_threads
    → is_inside ((run (create_lock env carg) (fresh (create_lock env carg)) is).phase i) ≡ true
    → is_inside ((run (create_lock env carg) (fresh (create_lock env carg)) is).phase j) ≡ true
    → i ≡ j
create_lock_exclusive env carg is i j clear small =
    (create_lock-Excludes env clear carg small).exclusive is i j
