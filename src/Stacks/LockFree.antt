-- ===== src/Stacks/LockFree.antt =====
-- project3/LockFreeStack.cpp: pushes and pops of any number of threads on one list of nodes, an
-- access to shared memory at a time. A node is its address, and 0 is NULL. The dummy node `head`
-- only serves through its field `next`, here `top`.
pub mod Invariant
pub mod Steps
pub mod Linearizable
pub mod Progress
pub mod Delays
pub mod Destructor
mod Tests
use utd_cs6v81_spring.Base.{
  ℕ, zero, suc, ◌++◌, Bool, true, false, ◌||◌, Option, none, some, List, [], ◌∷◌, ◌==◌,
  if◌then◌else◌,
}
use utd_cs6v81_spring.Base.Family.{update}

pub record Memory : Type 0 where
  pub top : ℕ
  pub next : ℕ → ℕ
  -- What `new` has handed out; the threads delete no node.
  pub allocated : ℕ → Bool

-- Where a thread stands.
pub data Pc : Type 0 where
  idle : Pc
  -- `trypush`: before `head->next` is read, before `node->next = n`, before the compare and swap;
  -- and in `backoff` after it has failed.
  push_read : (node : ℕ) → Pc
  push_link : (node n : ℕ) → Pc
  push_swap : (node n : ℕ) → Pc
  push_wait : (node : ℕ) → Pc
  -- `pop`: before the test of the loop; `trypop`: before `head->next` is read, before `n->next` is
  -- read, before the compare and swap.
  pop_test : Pc
  pop_read : Pc
  pop_next : (n : ℕ) → Pc
  pop_swap : (n m : ℕ) → Pc

-- What a step completes: a push of a node, a pop of one, a pop that returns NULL.
pub data Event : Type 0 where
  pushed : ℕ → Event
  popped : ℕ → Event
  saw_empty : Event

-- What an idle thread does next: push a node for which `new` returns the address, or pop.
pub data Choice : Type 0 where
  push_new : ℕ → Choice
  pop : Choice

abbrev pub Outcome : Type 0
Outcome = Memory × Pc × Option Event

-- `new Node(…)`: an address that is not NULL and not in use, or no step at all.
unfoldable pub begin : Memory → Choice → Outcome
begin m (push_new a) =
    if a == 0 || m.allocated a
    then (m, idle, none)
    else (record m { allocated = update m.allocated a true }, push_read a, none)
begin m pop = (m, pop_test, none)

unfoldable pub move : Memory → Pc → Choice → Outcome
unfolding begin
move m idle c = begin m c
move m (push_read node) c = (m, push_link node m.top, none)
move m (push_link node n) c = (record m { next = update m.next node n }, push_swap node n, none)
move m (push_swap node n) c =
    if m.top == n
    then (record m { top = node }, idle, some (pushed node))
    else (m, push_wait node, none)
move m (push_wait node) c = (m, push_read node, none)
move m pop_test c = if m.top == 0 then (m, idle, some saw_empty) else (m, pop_read, none)
move m pop_read c = (m, if m.top == 0 then pop_test else pop_next m.top, none)
move m (pop_next n) c = (m, pop_swap n (m.next n), none)
move m (pop_swap n k) c =
    if m.top == n then (record m { top = k }, idle, some (popped n)) else (m, pop_read, none)

pub record State : Type 0 where
  pub memory : Memory
  pub pc : ℕ → Pc

abbrev pub start : State
start = record {
  memory = record { top = 0; next = λ _. 0; allocated = λ _. false };
  pc = λ _. idle;
}

unfoldable pub step : State → ℕ → Choice → State × Option Event
step s i c =
    let (m, p, e) = move s.memory (s.pc i) c in (record { memory = m; pc = update s.pc i p }, e)

abbrev pub emit : Option Event → List Event → List Event
emit none es = es
emit (some e) es = e ∷ es

-- A schedule run to its end, with the events in order.
unfoldable pub run : State → List (ℕ × Choice) → State × List Event
run s [] = (s, [])
run s ((i, c) ∷ cs) = let (s', e) = step s i c in let (t, es) = run s' cs in (t, emit e es)

abbrev pub pop_turns : List (ℕ × Choice)
pop_turns = (0, pop) ∷ (0, pop) ∷ (0, pop) ∷ (0, pop) ∷ (0, pop) ∷ []

-- The loop of the destructor, on fuel: while the list has a node, a call of pop, which no other
-- thread disturbs, and the node that it returns is deleted.
unfoldable pub destroy : ℕ → State → List Event × State
destroy zero s = ([], s)
destroy (suc k) s =
    let (t, es) = run s pop_turns in
    let (fs, u) = destroy k t in if s.memory.top == 0 then ([], s) else (es ++ fs, u)
