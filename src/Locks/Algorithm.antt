-- ===== src/Locks/Algorithm.antt =====
-- project2/common.h, class LOCK: what a lock gives its callers. A lock is its shared fields with the
-- two methods cut at each access to shared memory, so that the accesses of several threads can be
-- interleaved. Memory is sequentially consistent.
use utd_cs6v81_spring.Base.{
  ℕ, ◌+◌, ◌^◌, ◌<◌, ◌≡◌, Bool, true, false, Option, none, some, List, [], ◌∷◌,
}
use utd_cs6v81_spring.Base.Family.{update}

pub record Algorithm : Type 1 where
  -- The fields of the lock object, and where a thread can stand inside `lock` and inside `unlock`,
  -- with the locals that are live there.
  pub Shared : Type 0
  pub Locking : Type 0
  pub Unlocking : Type 0
  -- The object as its constructor leaves it.
  pub init : Shared
  pub enter : Shared → Locking
  pub leave : Unlocking
  -- One access; `none` for the place when the method returns.
  pub lock_step : Shared → Locking → Shared × Option Locking
  pub unlock_step : Shared → Unlocking → Shared × Option Unlocking

-- A thread that uses the lock: `inside` is between the return of `lock` and the call of `unlock`.
pub data Phase (L U : Type 0) : Type 0 where
  outside : Phase L U
  locking : L → Phase L U
  inside : Phase L U
  unlocking : U → Phase L U

module _ {L U : Type 0} where
  abbrev pub after_lock : Option L → Phase L U
  after_lock none = inside
  after_lock (some l) = locking l

  abbrev pub after_unlock : Option U → Phase L U
  after_unlock none = outside
  after_unlock (some u) = unlocking u

  abbrev pub is_inside : Phase L U → Bool
  is_inside inside = true
  is_inside _ = false

  abbrev pub is_outside : Phase L U → Bool
  is_outside outside = true
  is_outside _ = false

  -- One for a thread about to call `lock`.
  abbrev pub calling : Phase L U → ℕ
  calling outside = 1
  calling _ = 0

-- A schedule that picks only the first `n` threads.
abbrev pub Below : ℕ → List ℕ → Type 0
Below n [] = Unit
Below n (i ∷ is) = (i < n) × Below n is

module _ (a : Algorithm) where
  open a use {Shared, Locking, Unlocking, init, enter, leave, lock_step, unlock_step}

  pub record Threads : Type 0 where
    pub shared : Shared
    pub phase : ℕ → Phase Locking Unlocking

  -- The next step of one thread, which calls `lock` and `unlock` in turn.
  unfoldable pub move : Shared → Phase Locking Unlocking → Shared × Phase Locking Unlocking
  move m outside = (m, locking (enter m))
  move m (locking l) = let (m', l') = lock_step m l in (m', after_lock l')
  move m inside = (m, unlocking leave)
  move m (unlocking u) = let (m', u') = unlock_step m u in (m', after_unlock u')

  unfoldable pub step : Threads → ℕ → Threads
  step s i =
      let (m, p) = move s.shared (s.phase i) in record { shared = m; phase = update s.phase i p }

  unfoldable pub run : Threads → List ℕ → Threads
  run s [] = s
  run s (i ∷ is) = run (step s i) is

  abbrev pub fresh : Threads
  fresh = record { shared = init; phase = λ _. outside }

  -- How often `lock` is called along a schedule.
  unfoldable pub calls : Threads → List ℕ → ℕ
  calls s [] = 0
  calls s (i ∷ is) = calling (s.phase i) + calls (step s i) is

  -- What the callers rely on: of `n` threads at most one is inside at a time, whatever the schedule,
  -- as long as `lock` is called fewer than 2 ^ 64 times.
  pub record Excludes (n : ℕ) : Type 0 where
    pub exclusive :
        (is : List ℕ) (i j : ℕ)
        → Below n is
        → calls fresh is < 2 ^ 64
        → i < n
        → j < n
        → is_inside ((run fresh is).phase i) ≡ true
        → is_inside ((run fresh is).phase j) ≡ true
        → i ≡ j
