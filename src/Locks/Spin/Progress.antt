-- ===== src/Locks/Spin/Progress.antt =====
-- Who gets in: a thread that finds the lock free, and nobody at a BackoffLock that was built on
-- memory where `state` read as set.
use utd_cs6v81_spring.Base.{ℕ, ◌≤◌, ◌<◌, ◌≡◌, refl, true, false, List, [], ◌∷◌, replicate, arith}
use utd_cs6v81_spring.Locks.Algorithm.{
  Below, Phase, outside, locking, inside, unlocking, is_inside, Threads, move, step, run, fresh,
}
use utd_cs6v81_spring.Locks.Flag.{holds, quiet_clear}
use utd_cs6v81_spring.Locks.Backoff.{Random}
use utd_cs6v81_spring.Locks.Spin.{
  tas_lock, tas_lock_step, ttas_lock, ttas_lock_step, TtasPc, spin, grab, backoff_lock,
  BackoffShared, backoff_lock_step, BackoffPc, attempt, slept,
}
use utd_cs6v81_spring.Locks.Spin.Exclusion.{
  tas_flag, tas_lock-IsFlagged, ttas_lock-IsFlagged, backoff_lock-IsFlagged,
}

not_inside : {L U : Type 0} (p : Phase L U) → holds p ≡ 0 → is_inside p ≡ false
not_inside p h = ground arith

-- TASLock: while no thread holds the lock, the next access of a thread inside `lock` gets it in.
pub tas_lock_free :
    (n : ℕ) (is : List ℕ) (i : ℕ)
    → Below n is
    → ((j : ℕ) → j < n → holds ((run tas_lock (fresh tas_lock) is).phase j) ≡ 0)
    → (run tas_lock (fresh tas_lock) is).phase i ≡ locking tt
    → is_inside ((step tas_lock (run tas_lock (fresh tas_lock) is) i).phase i) ≡ true
unfolding step move tas_lock_step
tas_lock_free n is i b quiet e =
    ground (arith, e, quiet_clear tas_lock tas_flag tas_lock-IsFlagged n is refl b quiet)

ttas_two :
    (s : Threads ttas_lock) (i : ℕ) (l : TtasPc)
    → s.shared ≡ false
    → s.phase i ≡ locking l
    → (k : ℕ) × (k ≤ 2) × (is_inside ((run ttas_lock s (replicate k i)).phase i) ≡ true)
unfolding run step move ttas_lock_step
ttas_two s i spin c e = (2, omega arith, ground arith)
ttas_two s i grab c e = (1, omega arith, ground arith)

-- TTASLock: while no thread holds the lock, at most two accesses of a thread inside `lock`, with none
-- of the other threads between them, get it in.
pub ttas_lock_free :
    (n : ℕ) (is : List ℕ) (i : ℕ) (l : TtasPc)
    → Below n is
    → ((j : ℕ) → j < n → holds ((run ttas_lock (fresh ttas_lock) is).phase j) ≡ 0)
    → (run ttas_lock (fresh ttas_lock) is).phase i ≡ locking l
    → (k : ℕ) × (k ≤ 2)
      × (is_inside ((run ttas_lock (run ttas_lock (fresh ttas_lock) is) (replicate k i)).phase i)
          ≡ true)
ttas_lock_free n is i l b quiet e =
    ttas_two _ i l (quiet_clear ttas_lock tas_flag ttas_lock-IsFlagged n is refl b quiet) e

module _ (r : Random) (lo hi : ℕ) where
  backoff_two :
      (s : Threads (backoff_lock r false lo hi)) (i : ℕ) (l : BackoffPc r)
      → s.shared.state ≡ false
      → s.phase i ≡ locking l
      → (k : ℕ) × (k ≤ 2)
        × (is_inside ((run (backoff_lock r false lo hi) s (replicate k i)).phase i) ≡ true)
  unfolding run step move backoff_lock_step
  backoff_two s i (attempt b) c e = (1, omega arith, ground arith)
  backoff_two s i (slept d b) c e = (2, omega arith, ground arith)

  -- BackoffLock on clear memory: while no thread holds the lock, at most two accesses of a thread
  -- inside `lock`, with none of the other threads between them, get it in.
  pub backoff_lock_free :
      (n : ℕ) (is : List ℕ) (i : ℕ) (l : BackoffPc r)
      → Below n is
      → ((j : ℕ)
          → j < n
          → holds
              ((run (backoff_lock r false lo hi) (fresh (backoff_lock r false lo hi)) is).phase j)
            ≡ 0)
      → (run (backoff_lock r false lo hi) (fresh (backoff_lock r false lo hi)) is).phase i
        ≡ locking l
      → (k : ℕ) × (k ≤ 2)
        × (is_inside (
              (run
                  (backoff_lock r false lo hi)
                  (run (backoff_lock r false lo hi) (fresh (backoff_lock r false lo hi)) is)
                  (replicate k i)).phase
                i)
            ≡ true)
  backoff_lock_free n is i l b quiet e =
      backoff_two _ i l
        (quiet_clear (backoff_lock r false lo hi) (λ m. m.state)
          (backoff_lock-IsFlagged r false lo hi) n is refl b quiet)
        e

  -- No thread is past `lock`, and `state` is set.
  abbrev Stuck : Threads (backoff_lock r true lo hi) → Type 0
  Stuck s = (s.shared.state ≡ true) × ((i : ℕ) → holds (s.phase i) ≡ 0)

  stuck_move :
      (m : BackoffShared r) (p : Phase (BackoffPc r) (Unit {0}))
      → m.state ≡ true
      → holds p ≡ 0
      → ((move (backoff_lock r true lo hi) m p).0.state ≡ true)
        × (holds (move (backoff_lock r true lo hi) m p).1 ≡ 0)
  unfolding move backoff_lock_step
  stuck_move m outside e h = ground arith
  stuck_move m (locking (attempt b)) e h = ground arith
  stuck_move m (locking (slept d b)) e h = ground arith
  stuck_move m inside e h = absurd (omega arith)
  stuck_move m (unlocking u) e h = absurd (omega arith)

  step-Stuck :
      (s : Threads (backoff_lock r true lo hi)) (i : ℕ)
      → Stuck s
      → Stuck (step (backoff_lock r true lo hi) s i)
  unfolding step
  step-Stuck s i (e, h) =
      let (e', h') = stuck_move s.shared (s.phase i) e (h i) in (e', λ j. ground (arith, h j))

  run-Stuck :
      (s : Threads (backoff_lock r true lo hi)) (is : List ℕ)
      → Stuck s
      → Stuck (run (backoff_lock r true lo hi) s is)
  unfolding run
  run-Stuck s [] h = h
  run-Stuck s (i ∷ is) h = run-Stuck (step (backoff_lock r true lo hi) s i) is (step-Stuck s i h)

  -- BackoffLock on memory where `state` read as set: no schedule ever gets a thread in.
  pub backoff_lock_stuck :
      (is : List ℕ) (i : ℕ)
      → is_inside ((run (backoff_lock r true lo hi) (fresh (backoff_lock r true lo hi)) is).phase i)
        ≡ false
  backoff_lock_stuck is i =
      not_inside _ ((run-Stuck (fresh (backoff_lock r true lo hi)) is (refl, λ j. refl)).1 i)
