-- ===== src/Stacks/LockFree/Tests.antt =====
-- Short schedules of the lock-free stack.
use utd_cs6v81_spring.Base.{
  ℕ, ℕ_discrete, ◌^◌, ◌%◌, ◌≤◌, ◌≡◌, refl, some, List, [], ◌∷◌, map, length,
}
use utd_cs6v81_spring.Locks.Samples.{lowest}
use utd_cs6v81_spring.Stacks.LockFree.{
  Choice, push_new, pop, pushed, popped, begin, move, start, step, run, destroy,
}
use utd_cs6v81_spring.Stacks.LockFree.Invariant.{Chain}
use utd_cs6v81_spring.Stacks.LockFree.Linearizable.{replay, linearizable}
use utd_cs6v81_spring.Stacks.LockFree.Destructor.{destructor_deletes}
use utd_cs6v81_spring.Stacks.LockFree.Delays.{backoff, backoffs, stack_delay_bounds}

-- Thread 1 links its node while thread 0 still holds the old top; thread 0 fails and tries again.
-- Then thread 1 pops both.
abbrev contended : List (ℕ × Choice)
contended =
    (0, push_new 5)
    ∷ (1, push_new 6)
    ∷ (0, pop)
    ∷ (1, pop)
    ∷ (1, pop)
    ∷ (1, pop)
    ∷ (0, pop)
    ∷ (0, pop)
    ∷ (0, pop)
    ∷ (0, pop)
    ∷ (0, pop)
    ∷ (0, pop)
    ∷ (1, pop)
    ∷ (1, pop)
    ∷ (1, pop)
    ∷ (1, pop)
    ∷ (1, pop)
    ∷ []

contended_events : (run start contended).1 ≡ pushed 6 ∷ pushed 5 ∷ popped 5 ∷ []
unfolding run step move begin ℕ_discrete
contended_events = refl

linearizable_example :
    (xs : List ℕ) × (replay (run start contended).1 [] ≡ some xs)
    × Chain (run start contended).0.memory.next (run start contended).0.memory.top xs
linearizable_example = linearizable contended

abbrev two_pushed : List (ℕ × Choice)
two_pushed =
    (0, push_new 5)
    ∷ (0, pop)
    ∷ (0, pop)
    ∷ (0, pop)
    ∷ (1, push_new 6)
    ∷ (1, pop)
    ∷ (1, pop)
    ∷ (1, pop)
    ∷ []

destructor_deletes_example :
    (xs : List ℕ) × (replay (run start two_pushed).1 [] ≡ some xs)
    × ((k : ℕ)
        → length xs ≤ k
        → ((destroy k (run start two_pushed).0).0 ≡ map popped xs)
          × ((destroy k (run start two_pushed).0).1.memory.top ≡ 0))
unfolding run step move begin ℕ_discrete
destructor_deletes_example = destructor_deletes two_pushed refl

stack_delay_bounds_example :
    ((backoffs lowest 9).1 ≡ 2 ^ (9 % 10))
    × (1 ≤ (backoff lowest (backoffs lowest 9).0 (backoffs lowest 9).1).0)
    × ((backoff lowest (backoffs lowest 9).0 (backoffs lowest 9).1).0 ≤ 512)
stack_delay_bounds_example = stack_delay_bounds lowest 9
