-- ===== src/Stacks/Locked/Tests.antt =====
-- A stack of at most two nodes, popped once more than it has nodes.
use utd_cs6v81_spring.Base.{ℕ, ◌≡◌, refl, List, [], ◌∷◌, arith}
use utd_cs6v81_spring.Stacks.Locked.{new_stack, Call, push_node, pop_node, run}
use utd_cs6v81_spring.Stacks.Locked.Refinement.{Fresh, Holds, locked_refines}

abbrev zeros : ℕ → ℕ
zeros a = 0

abbrev calls : List Call
calls = pop_node ∷ push_node 5 ∷ push_node 7 ∷ pop_node ∷ push_node 9 ∷ []

calls-Fresh : Fresh [] calls
calls-Fresh = (
  (λ q. omega arith),
  tt,
  (
    (λ q. omega arith),
    ((λ q. omega arith), tt),
    ((λ q. omega arith), ((λ q. omega arith), tt), tt),
  ),
)

locked_refines_example :
    ((run (new_stack zeros) calls).1 ≡ 0 ∷ 7 ∷ [])
    × Holds (run (new_stack zeros) calls).0 (9 ∷ 5 ∷ [])
locked_refines_example = locked_refines zeros calls calls-Fresh

popped : (run (new_stack zeros) calls).1 ≡ 0 ∷ 7 ∷ []
unfolding run new_stack
popped = refl
