-- ===== src/Stacks/LockFree/Delays.antt =====
-- `LockFreeStack::backoff`: the limit of the random delay, as one thread alone changes it.
use utd_cs6v81_spring.Base.{ℕ, zero, suc, ◌+◌, ◌*◌, ◌%◌, ◌^◌, ◌≤◌, ◌<◌, ◌≡◌, refl, ap, ◌∙◌, arith}
use utd_cs6v81_spring.Locks.Backoff.{Random}

-- `limit *= 2; limit %= 1023;` on a uint32_t.
unfoldable pub next_limit : ℕ → ℕ
next_limit limit = limit * 2 % 2 ^ 32 % 1023

module _ (r : Random) where
  -- The nanoseconds slept, with the generator and the limit afterwards.
  unfoldable pub backoff : r.Gen → ℕ → ℕ × r.Gen × ℕ
  unfolding next_limit
  backoff g limit = let (delay, g') = r.draw 1 limit g in (delay, g', next_limit limit)

  -- The generator and the limit after `k` calls; the constructor sets the limit to 1.
  unfoldable pub backoffs : ℕ → r.Gen × ℕ
  unfolding backoff
  backoffs zero = (r.seed 0x55aaff00, 1)
  backoffs (suc k) =
      let (g, limit) = backoffs k in let (delay, g', limit') = backoff g limit in (g', limit')

doubled : (j : ℕ) → j < 10 → next_limit (2 ^ j) ≡ 2 ^ ((j + 1) % 10)
unfolding next_limit
doubled zero h = refl
doubled (suc zero) h = refl
doubled (suc (suc zero)) h = refl
doubled (suc (suc (suc zero))) h = refl
doubled (suc (suc (suc (suc zero)))) h = refl
doubled (suc (suc (suc (suc (suc zero))))) h = refl
doubled (suc (suc (suc (suc (suc (suc zero)))))) h = refl
doubled (suc (suc (suc (suc (suc (suc (suc zero))))))) h = refl
doubled (suc (suc (suc (suc (suc (suc (suc (suc zero)))))))) h = refl
doubled (suc (suc (suc (suc (suc (suc (suc (suc (suc zero))))))))) h = refl
doubled (suc (suc (suc (suc (suc (suc (suc (suc (suc (suc j)))))))))) h = absurd (omega arith)

bounded : (j : ℕ) → j < 10 → (1 ≤ 2 ^ j) × (2 ^ j ≤ 512)
bounded zero h = omega arith
bounded (suc zero) h = omega arith
bounded (suc (suc zero)) h = omega arith
bounded (suc (suc (suc zero))) h = omega arith
bounded (suc (suc (suc (suc zero)))) h = omega arith
bounded (suc (suc (suc (suc (suc zero))))) h = omega arith
bounded (suc (suc (suc (suc (suc (suc zero)))))) h = omega arith
bounded (suc (suc (suc (suc (suc (suc (suc zero))))))) h = omega arith
bounded (suc (suc (suc (suc (suc (suc (suc (suc zero)))))))) h = omega arith
bounded (suc (suc (suc (suc (suc (suc (suc (suc (suc zero))))))))) h = omega arith
bounded (suc (suc (suc (suc (suc (suc (suc (suc (suc (suc j)))))))))) h = absurd (omega arith)

module _ (r : Random) where
  -- After `k` calls of `backoff` the limit is 2 ^ (k mod 10), so it runs through 1, 2, 4, …, 512
  -- again and again.
  limit_cycles : (k : ℕ) → (backoffs r k).1 ≡ 2 ^ (k % 10)
  unfolding backoffs
  limit_cycles zero = refl
  limit_cycles (suc k) =
      ap next_limit (limit_cycles k)
      ∙ doubled (k % 10) (omega arith)
      ∙ ap (λ (j : ℕ). 2 ^ j) (omega arith)

  -- After `k` calls of `backoff` by one thread alone the limit is 2 ^ (k mod 10), so it runs through
  -- 1, 2, 4, …, 512 again and again; the next call draws from bounds that are in order, and sleeps
  -- between 1 and 512 nanoseconds.
  pub stack_delay_bounds :
      (k : ℕ)
      → let (g, limit) = backoffs r k in
        (limit ≡ 2 ^ (k % 10)) × (1 ≤ (backoff r g limit).0) × ((backoff r g limit).0 ≤ 512)
  unfolding backoff
  stack_delay_bounds k =
      let (g, limit) = backoffs r k in
      let e = limit_cycles k in
      let b = bounded (k % 10) (omega arith) in
      let d = r.draw_bounds 1 limit g (rw e b.0) in
      (e, omega (arith, d, e, b), omega (arith, d, e, b))
