-- ===== src/Locks/Anderson/Tests.antt =====
-- Anderson's lock on short schedules.
use utd_cs6v81_spring.Base.{ℕ, ℕ_discrete, ◌≡◌, refl, true, false, [], ◌∷◌, arith}
use utd_cs6v81_spring.Locks.Algorithm.{is_inside, run, step, move, calls, fresh}
use utd_cs6v81_spring.Locks.Anderson.{alock, new_alock, clear_flags, alock_lock_step}
use utd_cs6v81_spring.Locks.Anderson.Exclusion.{alock_exclusive}

-- Thread 1 waits for slot 1 while thread 0 is inside.
alock_exclusive_example : ◌≡◌ {A = ℕ} 0 0
unfolding run step move calls new_alock clear_flags alock_lock_step ℕ_discrete
alock_exclusive_example =
    alock_exclusive (true ∷ true ∷ []) 2 2 (0 ∷ 0 ∷ 1 ∷ 1 ∷ 1 ∷ 0 ∷ 0 ∷ 0 ∷ []) 0 0 refl
      (omega arith) (omega arith) (omega arith) (omega arith) refl refl

-- With one slot fewer than threads two of them get in.
too_few_slots :
    (is_inside (
        (run
            (alock (false ∷ []) 1)
            (fresh (alock (false ∷ []) 1))
            (0 ∷ 0 ∷ 1 ∷ 1 ∷ 0 ∷ 1 ∷ 0 ∷ 1 ∷ 0 ∷ 1 ∷ [])).phase
          0)
      ≡ true)
    × (is_inside (
          (run
              (alock (false ∷ []) 1)
              (fresh (alock (false ∷ []) 1))
              (0 ∷ 0 ∷ 1 ∷ 1 ∷ 0 ∷ 1 ∷ 0 ∷ 1 ∷ 0 ∷ 1 ∷ [])).phase
            1)
        ≡ true)
unfolding run step move new_alock clear_flags alock_lock_step ℕ_discrete
too_few_slots = (refl, refl)
