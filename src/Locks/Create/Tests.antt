-- ===== src/Locks/Create/Tests.antt =====
-- The locks of a test with two threads, of which the second waits for the first.
use utd_cs6v81_spring.Base.{
  ℕ, ℕ_discrete, ◌≡◌, ◌≢◌, refl, ap, Bool, true, false, List, [], ◌∷◌, arith,
}
use utd_cs6v81_spring.Locks.Create.Free.{GetsIn, create_lock_free}
use utd_cs6v81_spring.Locks.Flag.{holds}
use utd_cs6v81_spring.Locks.Algorithm.{fresh, run, step, move, calls}
use utd_cs6v81_spring.Locks.Samples.{clean}
use utd_cs6v81_spring.Locks.Spin.{backoff_lock_step}
use utd_cs6v81_spring.Locks.Create.{
  CommonArgs, default_args, test_backoff, create_lock, create_lock_of, create_lock_exclusive,
  LockType, test_pthread, test_alock,
}

abbrev two : CommonArgs
two = record default_args { num_threads = 2; locktype = test_backoff }

abbrev contended : List ℕ
contended = 0 ∷ 1 ∷ 0 ∷ 1 ∷ 1 ∷ []

create_lock_exclusive_example : ◌≡◌ {A = ℕ} 0 0
unfolding create_lock create_lock_of run step move calls backoff_lock_step ℕ_discrete
create_lock_exclusive_example =
    create_lock_exclusive clean two contended 0 0 refl (omega arith) (omega arith) (omega arith)
      (omega arith) (omega arith) refl refl

abbrev shared : CommonArgs
shared = record two { locktype = test_pthread }

-- Thread 0 has called `lock`.
called :
    (j : ℕ)
    → holds ((run (create_lock clean shared) (fresh (create_lock clean shared)) (0 ∷ [])).phase j)
      ≡ 0
unfolding create_lock create_lock_of run step move ℕ_discrete
called j = ground arith

abbrev is_alock : LockType → Bool
is_alock test_alock = true
is_alock t = false

other_kind : test_pthread ≢ test_alock
other_kind e = let wrong : false ≡ true = ap is_alock e in cc

create_lock_free_example :
    GetsIn
      (create_lock clean shared)
      (run (create_lock clean shared) (fresh (create_lock clean shared)) (0 ∷ []))
      0
unfolding create_lock create_lock_of run step move ℕ_discrete
create_lock_free_example =
    create_lock_free clean shared 1 (0 ∷ []) 0 tt refl other_kind (omega arith) (λ j _. called j)
      refl
