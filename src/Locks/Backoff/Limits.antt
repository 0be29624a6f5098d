-- ===== src/Locks/Backoff/Limits.antt =====
-- How the limit grows, and where the doubling wraps.
use native.Mathlib.Nat.{pow-suc}
use utd_cs6v81_spring.Base.{ℕ, zero, suc, ◌*◌, ◌^◌, ◌≤◌, ◌<◌, ◌≡◌, refl, ap, min, arith}
use utd_cs6v81_spring.Locks.Backoff.{Random, new_backoff, backoff, backoffs}

module _ (r : Random) (g : r.Gen) (lo hi : ℕ) where
  -- The bounds are never written.
  kept :
      (k : ℕ)
      → ((backoffs r k (new_backoff r g lo hi)).min_delay ≡ lo)
        × ((backoffs r k (new_backoff r g lo hi)).max_delay ≡ hi)
  unfolding backoffs backoff new_backoff
  kept zero = (refl, refl)
  kept (suc k) = kept k

  -- With bounds in order and the upper one below 2 ^ 31, the limit after `k` calls of `backoff` is
  -- the lower bound doubled `k` times, cut off at the upper one.
  limit-backoffs :
      (k : ℕ)
      → lo ≤ hi
      → hi < 2 ^ 31
      → (backoffs r k (new_backoff r g lo hi)).limit ≡ min hi (2 ^ k * lo)
  unfolding backoffs backoff new_backoff
  limit-backoffs zero h small = omega arith
  limit-backoffs (suc k) h small =
      omega (arith, limit-backoffs k h small, kept k, ap (λ (t : ℕ). t * lo) (pow-suc 2 k))

  limit_within :
      (k : ℕ)
      → lo ≤ hi
      → hi < 2 ^ 31
      → (lo ≤ (backoffs r k (new_backoff r g lo hi)).limit)
        × ((backoffs r k (new_backoff r g lo hi)).limit ≤ hi)
  unfolding backoffs backoff new_backoff
  limit_within zero h small = omega arith
  limit_within (suc k) h small = omega (arith, limit_within k h small, kept k)

  -- Under the same conditions every delay lies between the bounds.
  delay_bounds :
      (k : ℕ)
      → lo ≤ hi
      → hi < 2 ^ 31
      → (lo ≤ (backoff r (backoffs r k (new_backoff r g lo hi))).0)
        × ((backoff r (backoffs r k (new_backoff r g lo hi))).0 ≤ hi)
  unfolding backoff
  delay_bounds k h small =
      let b = backoffs r k (new_backoff r g lo hi) in
      omega (
        arith,
        r.draw_bounds b.min_delay b.limit b.gen (omega (arith, limit_within k h small, kept k)),
        kept k,
        limit_within k h small,
      )

  -- With bounds in order and the upper one below 2 ^ 31: after `k` calls of `backoff` the limit is
  -- the lower bound doubled `k` times, cut off at the upper one, and the delay of the next call
  -- lies between the bounds.
  pub backoff_lem :
      (k : ℕ)
      → lo ≤ hi
      → hi < 2 ^ 31
      → ((backoffs r k (new_backoff r g lo hi)).limit ≡ min hi (2 ^ k * lo))
        × (lo ≤ (backoff r (backoffs r k (new_backoff r g lo hi))).0)
        × ((backoff r (backoffs r k (new_backoff r g lo hi))).0 ≤ hi)
  backoff_lem k h small =
      let (above, below) = delay_bounds k h small in (limit-backoffs k h small, above, below)

  -- With a lower bound of 2 ^ 31 or more the doubling wraps: after one call the limit is below the
  -- lower bound, so that the next draw asks for a number between bounds that are out of order.
  pub limit_wraps :
      lo ≤ hi
      → 2 ^ 31 ≤ lo
      → hi < 2 ^ 32
      → let b = (backoff r (new_backoff r g lo hi)).1 in b.limit < b.min_delay
  unfolding backoff new_backoff
  limit_wraps h big small = omega arith
