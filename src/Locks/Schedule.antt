-- ===== src/Locks/Schedule.antt =====
-- Schedules grow at the end.
use utd_cs6v81_spring.Base.{ℕ, ◌+◌, ◌<◌, ◌≡◌, refl, List, [], ◌∷◌, ◌++◌, arith}
use utd_cs6v81_spring.Locks.Algorithm.{Algorithm, Below, Threads, step, run, calls, calling}

pub Below-append : (n i : ℕ) (is : List ℕ) → Below n is → i < n → Below n (is ++ (i ∷ []))
Below-append n i [] b h = (h, tt)
Below-append n i (j ∷ is) b h = (b.0, Below-append n i is b.1 h)

module _ (a : Algorithm) where
  pub run-append :
      (s : Threads a) (i : ℕ) (is : List ℕ) → run a s (is ++ (i ∷ [])) ≡ step a (run a s is) i
  unfolding run
  run-append s i [] = refl
  run-append s i (j ∷ is) = run-append (step a s j) i is

  pub calls-append :
      (s : Threads a) (i : ℕ) (is : List ℕ)
      → calls a s (is ++ (i ∷ [])) ≡ calls a s is + calling ((run a s is).phase i)
  unfolding run calls
  calls-append s i [] = omega arith
  calls-append s i (j ∷ is) = omega (arith, calls-append (step a s j) i is)
