-- ===== src/Locks/Spin/Exclusion.antt =====
-- Mutual exclusion for the locks of one flag.
use utd_cs6v81_spring.Base.{ℕ, refl, Bool, arith}
use utd_cs6v81_spring.Base.{Bool-cases, inl, inr}
use utd_cs6v81_spring.Locks.Flag.{IsFlagged}
use utd_cs6v81_spring.Locks.Backoff.{Random}
use utd_cs6v81_spring.Locks.Spin.{
  tas_lock, tas_lock_step, clear_step, ttas_lock, ttas_lock_step, spin, grab, backoff_lock,
  backoff_lock_step, backoff_unlock_step, attempt, slept, Mutex, pthread_lock, pthread_lock_step,
  pthread_unlock_step,
}

abbrev pub tas_flag : Bool → Bool
tas_flag b = b

pub tas_lock-IsFlagged : IsFlagged tas_lock tas_flag
unfolding tas_lock_step clear_step
tas_lock-IsFlagged = record { locks = λ m l. ground arith; unlocks = λ m u. refl }

pub ttas_lock-IsFlagged : IsFlagged ttas_lock tas_flag
unfolding ttas_lock_step clear_step
ttas_lock-IsFlagged = record {
  locks = λ m. elim [ spin ↦ refl | grab ↦ ground arith ];
  unlocks = λ m u. refl;
}

module _ (r : Random) (memory : Bool) (lo hi : ℕ) where
  pub backoff_lock-IsFlagged : IsFlagged (backoff_lock r memory lo hi) (λ m. m.state)
  unfolding backoff_lock_step backoff_unlock_step
  backoff_lock-IsFlagged = record {
    locks = λ m. elim [ attempt b ↦ ground arith | slept d b ↦ refl ];
    unlocks = λ m u. refl;
  }

module _ (x : Mutex) where
  pub pthread_lock-IsFlagged : IsFlagged (pthread_lock x) x.held
  unfolding pthread_lock_step pthread_unlock_step
  pthread_lock-IsFlagged = record {
    locks = λ m l. elim (Bool-cases (x.held m)) [
      | inl busy ↦ rw (x.acquire_held m busy) refl
      | inr free ↦ let (m', e, h) = x.acquire_free m free in rw e (free, h)
    ];
    unlocks = λ m u. x.release_free m;
  }
