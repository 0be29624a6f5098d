-- ===== src/Stacks/LockFree/Progress.antt =====
-- A thread that runs alone completes its operation.
use utd_cs6v81_spring.Base.{ℕ, ◌≡◌, ◌≢◌, [], ◌∷◌, arith}
use utd_cs6v81_spring.Stacks.LockFree.{
  push_read, pop_test, pushed, popped, pop, move, State, step, run,
}

-- Three steps of a thread at the start of a push, with no other thread between them, push its node.
push_alone :
    (s : State) (i a : ℕ)
    → s.pc i ≡ push_read a
    → (run s ((i, pop) ∷ (i, pop) ∷ (i, pop) ∷ [])).1 ≡ pushed a ∷ []
unfolding run step move
push_alone s i a e = ground (arith, e)

-- Four steps of a thread at the start of a pop, with no other thread between them, pop the top node
-- of a stack that is not empty.
pop_alone :
    (s : State) (i : ℕ)
    → s.pc i ≡ pop_test
    → s.memory.top ≢ 0
    → (run s ((i, pop) ∷ (i, pop) ∷ (i, pop) ∷ (i, pop) ∷ [])).1 ≡ popped s.memory.top ∷ []
unfolding run step move
pop_alone s i e h = ground (arith, e)

-- Three steps of a thread at the start of a push, with no other thread between them, push its node;
-- and four steps of a thread at the start of a pop, with no other thread between them, pop the top
-- node of a stack that is not empty.
operations_alone :
    (s : State) (i j a : ℕ)
    → s.pc i ≡ push_read a
    → s.pc j ≡ pop_test
    → s.memory.top ≢ 0
    → ((run s ((i, pop) ∷ (i, pop) ∷ (i, pop) ∷ [])).1 ≡ pushed a ∷ [])
      × ((run s ((j, pop) ∷ (j, pop) ∷ (j, pop) ∷ (j, pop) ∷ [])).1 ≡ popped s.memory.top ∷ [])
operations_alone s i j a h k full = (push_alone s i a h, pop_alone s j k full)
