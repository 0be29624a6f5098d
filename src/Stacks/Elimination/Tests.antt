-- ===== src/Stacks/Elimination/Tests.antt =====
-- A push and a pop that meet in the array, and a pop that is drawn past its end.
use native.Mathlib.Nat.{le_refl}
use utd_cs6v81_spring.Base.{
  ℕ, zero, suc, ℕ_discrete, ◌==◌, if◌then◌else◌, ◌+◌, ◌<◌, ◌≡◌, refl, some, List, [], ◌∷◌, map,
  arith,
}
use utd_cs6v81_spring.Times.{Timespec, greater}
use utd_cs6v81_spring.Locks.Backoff.{Random}
use utd_cs6v81_spring.Locks.Samples.{lowest}
use utd_cs6v81_spring.Exchange
use utd_cs6v81_spring.Exchange.Slot.{get, compare_and_set}
use utd_cs6v81_spring.Exchange.Visit.{visit_index, min32}
use utd_cs6v81_spring.Stacks.Elimination.{
  idle, Choice, push, pop, called, pushed, popped, overran, begin, move, State, start, step, run,
  destroy,
}
use utd_cs6v81_spring.Stacks.Elimination.Conserves.{
  InBounds, arrivals, departures, total, elimination_conserves, elimination_settles,
}
use utd_cs6v81_spring.Stacks.LockFree.Invariant.{Chain}
use utd_cs6v81_spring.Stacks.LockFree.Linearizable.{replay}
use utd_cs6v81_spring.Stacks.Elimination.Refines.{AllNodes, actions, elimination_refines}
use utd_cs6v81_spring.Stacks.Elimination.Alone.{destroy_frees}

abbrev now : Timespec
now = record { tv_sec = 1; tv_nsec = 0 }

abbrev push_of : ℕ → ℕ → ℕ × Choice
push_of i node = (i, (push node, now))

abbrev turns : ℕ → ℕ → List (ℕ × Choice) → List (ℕ × Choice)
turns zero i rest = rest
turns (suc n) i rest = (i, (pop, now)) ∷ turns n i rest

-- Thread 0 reads an empty list, thread 1 puts its node there, and thread 0 goes to the array with
-- its own. Thread 3 finds the node of thread 1, thread 2 takes it, and thread 3 goes to the array
-- too, where it gets the node of thread 0.
abbrev to_array : List (ℕ × Choice)
to_array =
    push_of 0 4
    ∷ push_of 1 8
    ∷ turns 1 0
        (turns 3 1 (turns 2 0 (turns 2 3 (turns 5 2 (turns 5 0 (turns 8 3 (turns 5 0 [])))))))

to_array-InBounds : InBounds (run lowest (start lowest) to_array).1
unfolding run step move begin visit_index Exchange.move ℕ_discrete greater get compare_and_set
to_array-InBounds = tt

elimination_conserves_example :
    total lowest 4 4 (run lowest (start lowest) to_array).0
      + departures 4 (run lowest (start lowest) to_array).1
    ≡ arrivals 4 (run lowest (start lowest) to_array).1
elimination_conserves_example =
    elimination_conserves lowest 4 to_array 4 (omega arith) (omega arith) (omega arith)
      to_array-InBounds

to_array_idle : (i : ℕ) → i < 4 → (run lowest (start lowest) to_array).0.pc i ≡ idle
unfolding run step move begin visit_index Exchange.move ℕ_discrete greater get compare_and_set
to_array_idle zero h = refl
to_array_idle (suc zero) h = refl
to_array_idle (suc (suc zero)) h = refl
to_array_idle (suc (suc (suc zero))) h = refl
to_array_idle (suc (suc (suc (suc i)))) h = absurd (omega arith)

elimination_settles_example :
    let (s, es) = run lowest (start lowest) to_array in
    ((j : ℕ) → s.memory.slots j ≡ 0) × (departures 4 es ≡ arrivals 4 es)
elimination_settles_example =
    elimination_settles lowest 4 to_array 4 (omega arith) (omega arith) (omega arith)
      to_array-InBounds to_array_idle

-- Turns that push nothing push nodes only.
turns-AllNodes : (n i : ℕ) (rest : List (ℕ × Choice)) → AllNodes rest → AllNodes (turns n i rest)
turns-AllNodes zero i rest h = h
turns-AllNodes (suc n) i rest h = (tt, turns-AllNodes n i rest h)

elimination_refines_example :
    let (s, es) = run lowest (start lowest) to_array in
    (xs : List ℕ) × (replay (actions es) [] ≡ some xs) × Chain s.memory.next s.memory.top xs
elimination_refines_example =
    elimination_refines lowest 4 to_array (omega arith) (omega arith)
      ((λ e. omega (arith, e)), ((λ e. omega (arith, e)), turns-AllNodes 31 0 [] tt))
      (λ v. ground arith) to_array-InBounds

-- Thread 0 pushes a node, and thread 1 pops it.
abbrev in_turn : List (ℕ × Choice)
in_turn = push_of 0 4 ∷ turns 3 0 (turns 5 1 [])

events_after : (run lowest (start lowest) in_turn).1 ≡ called 4 ∷ pushed 4 ∷ popped 4 ∷ []
unfolding run step move begin ℕ_discrete
events_after = refl

-- Two nodes on the list.
abbrev two_nodes : State lowest
two_nodes = record (start lowest) {
  memory = record ((start lowest).memory) { top = 8; next = λ n. if n == 8 then 4 else 0 };
}

destroy_frees_example :
    let (es, t) = destroy lowest 2 two_nodes now in
    (es ≡ map popped (8 ∷ 4 ∷ [])) × (t.memory.top ≡ 0)
destroy_frees_example =
    destroy_frees lowest two_nodes (8 ∷ 4 ∷ []) 2 now refl
      (refl, omega arith, (refl, omega arith, refl)) (omega arith)

-- A generator that always draws the upper bound.
abbrev highest : Random
highest = record {
  Gen = ℕ;
  seed = λ s. s;
  draw = λ a b g. (b, suc g);
  draw_bounds = λ a b g h. (h, le_refl b);
}

abbrev at_time : ℕ → ℕ × Choice
at_time t = (0, (pop, record { tv_sec = 7; tv_nsec = t }))

-- Thread 0 finds the list empty, visits the array and comes back with a timeout, `n` times.
abbrev visits : ℕ → List (ℕ × Choice) → List (ℕ × Choice)
visits zero rest = rest
visits (suc n) rest =
    at_time 0
    ∷ at_time 0
    ∷ at_time 0
    ∷ at_time 20
    ∷ at_time 30
    ∷ at_time 30
    ∷ at_time 600
    ∷ at_time 30
    ∷ at_time 30
    ∷ visits n rest

-- Thread 0 passes the test for an empty list, and thread 1 pops the only node. After six visits the
-- range is 128, and the seventh draws the index past the end.
abbrev past : List (ℕ × Choice)
past = push_of 1 4 ∷ turns 3 1 (turns 2 0 (turns 5 1 (visits 6 (turns 2 0 []))))

past_overruns : (run highest (start highest) past).1 ≡ called 4 ∷ pushed 4 ∷ popped 4 ∷ overran ∷ []
unfolding run step move begin visit_index min32 Exchange.move ℕ_discrete greater get compare_and_set
past_overruns = refl
