-- ===== src/Stacks/Elimination/Alone.antt =====
-- The destructor of the elimination stack, which no other thread disturbs.
use utd_cs6v81_spring.Base.{
  ℕ, zero, suc, ◌≤◌, ◌≡◌, ◌≢◌, refl, false, ◌==◌, List, [], ◌∷◌, map, length, arith,
}
use utd_cs6v81_spring.Times.{Timespec}
use utd_cs6v81_spring.Locks.Backoff.{Random}
use utd_cs6v81_spring.Stacks.LockFree.Invariant.{Chain}
use utd_cs6v81_spring.Stacks.Elimination.{
  idle, popped, move, begin, State, step, run, pop_turns, destroy,
}

module _ (r : Random) where
  pop_alone :
      (s : State r) (now : Timespec)
      → s.pc 0 ≡ idle
      → s.memory.top ≢ 0
      → let (t, es) = run r s (pop_turns r now) in
        (es ≡ popped s.memory.top ∷ [])
        × (t.memory.top ≡ s.memory.next s.memory.top)
        × (t.memory.next ≡ s.memory.next)
        × (t.pc 0 ≡ idle)
  unfolding run step move begin
  pop_alone s now e h = ground (arith, e)

  -- When the list holds the nodes `xs` and thread 0 is in no call, the loop of the destructor,
  -- given at least as many rounds as nodes, pops and deletes just these nodes from the top on, and
  -- ends with the list empty.
  pub destroy_frees :
      (s : State r) (xs : List ℕ) (k : ℕ) (now : Timespec)
      → s.pc 0 ≡ idle
      → Chain s.memory.next s.memory.top xs
      → length xs ≤ k
      → let (es, t) = destroy r k s now in (es ≡ map popped xs) × (t.memory.top ≡ 0)
  unfolding destroy
  destroy_frees s [] zero now e c h = (refl, c)
  destroy_frees s [] (suc k) now e c h = ground (arith, c)
  destroy_frees s (x ∷ xs) zero now e c h = absurd (omega arith)
  destroy_frees s (x ∷ xs) (suc k) now e c h =
      let (es, top, next, quiet) = pop_alone s now e (λ z. c.1 (omega (arith, z, c.0))) in
      let full : (s.memory.top == 0) ≡ false = ground (arith, c.0, c.1) in
      let (deleted, left) =
        destroy_frees (run r s (pop_turns r now)).0 xs k now quiet (rw (next, top, c.0) c.2)
          (omega arith) in
      rw (full, es) (cc, left)
