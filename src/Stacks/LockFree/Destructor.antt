-- ===== src/Stacks/LockFree/Destructor.antt =====
-- The destructor of the lock-free stack, which no other thread disturbs.
use utd_cs6v81_spring.Base.{
  ℕ, zero, suc, ◌≤◌, ◌≡◌, ◌≢◌, refl, false, ◌==◌, some, List, [], ◌∷◌, map, length, arith,
}
use utd_cs6v81_spring.Stacks.LockFree.Invariant.{Chain}
use utd_cs6v81_spring.Stacks.LockFree.Linearizable.{replay, linearizable}
use utd_cs6v81_spring.Stacks.LockFree.{
  Choice, idle, popped, move, begin, State, start, step, run, pop_turns, destroy,
}

pop_once :
    (s : State)
    → s.pc 0 ≡ idle
    → s.memory.top ≢ 0
    → let (t, es) = run s pop_turns in
      (es ≡ popped s.memory.top ∷ [])
      × (t.memory.top ≡ s.memory.next s.memory.top)
      × (t.memory.next ≡ s.memory.next)
      × (t.pc 0 ≡ idle)
unfolding run step move begin
pop_once s e h = ground (arith, e)

destroy_from :
    (s : State) (xs : List ℕ) (k : ℕ)
    → s.pc 0 ≡ idle
    → Chain s.memory.next s.memory.top xs
    → length xs ≤ k
    → let (es, t) = destroy k s in (es ≡ map popped xs) × (t.memory.top ≡ 0)
unfolding destroy
destroy_from s [] zero e c h = (refl, c)
destroy_from s [] (suc k) e c h = ground (arith, c)
destroy_from s (x ∷ xs) zero e c h = absurd (omega arith)
destroy_from s (x ∷ xs) (suc k) e c h =
    let (es, top, next, quiet) = pop_once s e (λ z. c.1 (omega (arith, z, c.0))) in
    let full : (s.memory.top == 0) ≡ false = ground (arith, c.0, c.1) in
    let (deleted, left) =
      destroy_from (run s pop_turns).0 xs k quiet (rw (next, top, c.0) c.2) (omega arith) in
    rw (full, es) (cc, left)

-- After any interleaving that leaves thread 0 in no call, the completed operations leave a list of
-- some nodes, and the loop of the destructor, given at least as many rounds as these, pops and
-- deletes just them from the top on, and ends with no node on the stack.
pub destructor_deletes :
    (cs : List (ℕ × Choice))
    → (run start cs).0.pc 0 ≡ idle
    → let (s, es) = run start cs in
      (xs : List ℕ) × (replay es [] ≡ some xs)
      × ((k : ℕ)
          → length xs ≤ k
          → ((destroy k s).0 ≡ map popped xs) × ((destroy k s).1.memory.top ≡ 0))
destructor_deletes cs quiet =
    let (xs, effect, chain) = linearizable cs in
    (xs, effect, λ k h. destroy_from (run start cs).0 xs k quiet chain h)
