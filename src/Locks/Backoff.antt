-- ===== src/Locks/Backoff.antt =====
-- project2/BackoffLock.cpp, class Backoff: the delays of one call of `lock`.
pub mod Limits
mod Tests
use utd_cs6v81_spring.Base.{ℕ, zero, suc, ◌*◌, ◌%◌, ◌^◌, ◌≤◌, min}

-- boost's generator and its uniform distribution over the numbers from the first bound to the second.
pub record Random : Type 1 where
  pub Gen : Type 0
  pub seed : ℕ → Gen
  pub draw : ℕ → ℕ → Gen → ℕ × Gen
  -- Documented for bounds in order only.
  pub draw_bounds : (a b : ℕ) (g : Gen) → a ≤ b → (a ≤ (draw a b g).0) × ((draw a b g).0 ≤ b)

module _ (r : Random) where
  open r use {Gen, draw}

  pub record Backoff : Type 0 where
    pub gen : Gen
    pub min_delay : ℕ  -- uint32_t
    pub max_delay : ℕ  -- uint32_t
    pub limit : ℕ  -- uint32_t

  -- The constructor copies the generator.
  unfoldable pub new_backoff : Gen → ℕ → ℕ → Backoff
  new_backoff g lo hi = record { gen = g; min_delay = lo; max_delay = hi; limit = min lo hi }

  -- The microseconds slept, and the object afterwards.
  unfoldable pub backoff : Backoff → ℕ × Backoff
  backoff b =
      let (delay, g) = draw b.min_delay b.limit b.gen in
      (delay, record b { gen = g; limit = min b.max_delay (2 * b.limit % 2 ^ 32) })

  -- The object after `k` calls.
  unfoldable pub backoffs : ℕ → Backoff → Backoff
  unfolding backoff
  backoffs zero b = b
  backoffs (suc k) b = (backoff (backoffs k b)).1
