-- ===== src/Locks/Create/Free.antt =====
-- A free lock of any kind but ALock lets the next thread in.
use mathlib.Core.Path.{subst}
use utd_cs6v81_spring.Base.{ℕ, ◌≤◌, ◌<◌, ◌≡◌, ◌≢◌, refl, sym, true, false, List, replicate, arith}
use utd_cs6v81_spring.Locks.Algorithm.{
  Algorithm, Below, locking, is_inside, Threads, move, step, run, fresh,
}
use utd_cs6v81_spring.Locks.Flag.{holds, quiet_clear}
use utd_cs6v81_spring.Locks.Spin.{tas_lock, backoff_lock, Mutex, pthread_lock, pthread_lock_step}
use utd_cs6v81_spring.Locks.Spin.Exclusion.{pthread_lock-IsFlagged}
use utd_cs6v81_spring.Locks.Spin.Progress.{tas_lock_free, ttas_lock_free, backoff_lock_free}
use utd_cs6v81_spring.Locks.Create.{
  LockType, test_taslock, test_ttaslock, test_backoff, test_alock, test_pthread, CommonArgs,
  Environment, create_lock_of, create_lock,
}

-- At most two accesses of a thread, with none of the others between them, get it in.
abbrev pub GetsIn : (a : Algorithm) → Threads a → ℕ → Type 0
GetsIn a s i = (k : ℕ) × (k ≤ 2) × (is_inside ((run a s (replicate k i)).phase i) ≡ true)

abbrev IsFree : Algorithm → ℕ → Type 0
IsFree a n =
    (is : List ℕ) (i : ℕ) (l : a.Locking)
    → Below n is
    → ((j : ℕ) → j < n → holds ((run a (fresh a) is).phase j) ≡ 0)
    → (run a (fresh a) is).phase i ≡ locking l
    → GetsIn a (run a (fresh a) is) i

module _ (x : Mutex) where
  pthread_one :
      (s : Threads (pthread_lock x)) (i : ℕ)
      → x.held s.shared ≡ false
      → s.phase i ≡ locking tt
      → GetsIn (pthread_lock x) s i
  unfolding run step move pthread_lock_step
  pthread_one s i c e =
      let (m, got, held) = x.acquire_free s.shared c in (1, omega arith, ground (arith, e, got))

  pthread_lock-IsFree : (n : ℕ) → IsFree (pthread_lock x) n
  pthread_lock-IsFree n is i l b quiet e =
      pthread_one _ i
        (quiet_clear (pthread_lock x) x.held (pthread_lock-IsFlagged x) n is x.fresh_free b quiet) e

tas_lock-IsFree : (n : ℕ) → IsFree tas_lock n
unfolding run
tas_lock-IsFree n is i l b quiet e = (1, omega arith, tas_lock_free n is i b quiet e)

module _ (env : Environment) (clear : env.backoff_memory ≡ false) (carg : CommonArgs) (n : ℕ) where
  created-IsFree : (t : LockType) → t ≢ test_alock → IsFree (create_lock_of env t carg) n
  unfolding create_lock_of
  created-IsFree test_taslock other = tas_lock-IsFree n
  created-IsFree test_ttaslock other = ttas_lock_free n
  created-IsFree test_backoff other =
      subst (λ m. IsFree (backoff_lock env.random m carg.min_delay carg.max_delay) n) (sym clear)
        (backoff_lock_free env.random carg.min_delay carg.max_delay n)
  created-IsFree test_alock other = absurd (other refl)
  created-IsFree test_pthread other = pthread_lock-IsFree env.mutex n

-- TASLock, TTASLock, BackoffLock on memory that reads clear, and PThreadLock, as the arguments of a
-- test create them: while no thread holds the lock, at most two accesses of a thread inside `lock`,
-- with none of the other threads between them, get it in.
pub create_lock_free :
    (env : Environment) (carg : CommonArgs) (n : ℕ) (is : List ℕ) (i : ℕ)
    (l : (create_lock env carg).Locking)
    → env.backoff_memory ≡ false
    → carg.locktype ≢ test_alock
    → Below n is
    → ((j : ℕ)
        → j < n
        → holds ((run (create_lock env carg) (fresh (create_lock env carg)) is).phase j) ≡ 0)
    → (run (create_lock env carg) (fresh (create_lock env carg)) is).phase i ≡ locking l
    → GetsIn (create_lock env carg) (run (create_lock env carg) (fresh (create_lock env carg)) is) i
unfolding create_lock
create_lock_free env carg n is i l clear other =
    created-IsFree env clear carg n carg.locktype other is i l
