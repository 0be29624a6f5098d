-- ===== src/Locks/Spin/Tests.antt =====
-- The locks of one flag on short schedules.
use utd_cs6v81_spring.Base.{◌≡◌, true, false, [], ◌∷◌}
use utd_cs6v81_spring.Locks.Algorithm.{is_inside, run, fresh}
use utd_cs6v81_spring.Locks.Samples.{lowest}
use utd_cs6v81_spring.Locks.Spin.{backoff_lock}
use utd_cs6v81_spring.Locks.Spin.Progress.{backoff_lock_stuck}

backoff_lock_stuck_example :
    is_inside (
      (run
          (backoff_lock lowest true 1 128)
          (fresh (backoff_lock lowest true 1 128))
          (0 ∷ 0 ∷ 0 ∷ [])).phase
        0)
    ≡ false
backoff_lock_stuck_example = backoff_lock_stuck lowest 1 128 (0 ∷ 0 ∷ 0 ∷ []) 0
