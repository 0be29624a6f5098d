-- ===== src/Stacks/Elimination.antt =====
-- project3/Elimination.cpp: pushes and pops of any number of threads on one list of nodes, which
-- visit an array of exchangers when their compare and swap fails, or for a pop when the list is
-- empty. A step is an access to shared memory or a reading of the clock. A node is its address, and
-- 0 is NULL; the dummy node `head` only serves through its field `next`, here `top`. The array has
-- `maxrange` exchangers, and a generator may draw the index one past its end: what the program does
-- from there on is not defined, and the step that draws it is marked with the event `overran`.
pub mod Kept
pub mod Visits
pub mod Conserves
pub mod Listed
pub mod Refines
pub mod Alone
mod Tests
use utd_cs6v81_spring.Base.{
  ℕ, zero, suc, ◌++◌, ◌*◌, ◌%◌, ◌^◌, Option, none, some, List, [], ◌∷◌, ◌==◌, ltb, if◌then◌else◌,
}
use utd_cs6v81_spring.Base.Family.{update}
use utd_cs6v81_spring.Times.{Timespec}
use utd_cs6v81_spring.Locks.Backoff.{Random}
use utd_cs6v81_spring.Exchange
use utd_cs6v81_spring.Exchange.{entering}
use utd_cs6v81_spring.Exchange.Visit.{new_array, visit_index, visited}

-- `new EliminationArray(100)`, and the seed of the generator in `visit`.
abbrev pub maxrange : ℕ
maxrange = 100

abbrev pub visit_seed : ℕ
visit_seed = 0xff00aa55

-- Where a thread stands; `range` is the local of push and pop. For a push: before `head->next` is
-- read, before `node->next = n`, before the compare and swap, before `visit` draws, and inside
-- `exchange`. For a pop: before its test, before `head->next` is read, before `n->next` is read,
-- before the compare and swap, before `visit` draws, and inside `exchange`. At `past_end` its visit
-- has drawn the index past the end of the array, with the node of a push, or 0 in a pop.
pub data Pc : Type 0 where
  idle : Pc
  push_read : (node range : ℕ) → Pc
  push_link : (node n range : ℕ) → Pc
  push_swap : (node n range : ℕ) → Pc
  push_draw : (node range : ℕ) → Pc
  push_visit : (slot range : ℕ) (p : Exchange.Pc) → Pc
  pop_test : Pc
  pop_read : (range : ℕ) → Pc
  pop_next : (n range : ℕ) → Pc
  pop_swap : (n m range : ℕ) → Pc
  pop_draw : (range : ℕ) → Pc
  pop_visit : (slot range : ℕ) (p : Exchange.Pc) → Pc
  past_end : (node : ℕ) → Pc

-- What a step brings about: a call of push with a node; the return of a push whose compare and swap
-- has put a node on the list, or whose visit has given NULL; the return of a pop with the node that
-- it has taken off the list, with the node of its visit, or with NULL; a draw of the index past the
-- array's end.
pub data Event : Type 0 where
  called : (node : ℕ) → Event
  pushed : (node : ℕ) → Event
  handed_over : Event
  popped : (node : ℕ) → Event
  eliminated : (node : ℕ) → Event
  saw_empty : Event
  overran : Event

-- What an idle thread calls next.
pub data Call : Type 0 where
  push : (node : ℕ) → Call
  pop : Call

-- What a turn takes from the surroundings: the call, and what the clock says.
abbrev pub Choice : Type 0
Choice = Call × Timespec

-- `range *= 2`, an int that `visit` takes as a uint32_t.
abbrev pub double : ℕ → ℕ
double range = range * 2 % 2 ^ 32

-- Inside `visit`, or after it has returned `other`.
abbrev pub push_on : ℕ → ℕ → Exchange.Pc → Option ℕ → Pc × Option Event
push_on slot range p none = (push_visit slot range p, none)
push_on slot range p (some other) =
    if other == 0 then (idle, some handed_over) else (push_read other (double range), none)

abbrev pub pop_on : ℕ → ℕ → Exchange.Pc → Option ℕ → Pc × Option Event
pop_on slot range p none = (pop_visit slot range p, none)
pop_on slot range p (some n) =
    if n == 0 then (pop_read (double range), none) else (idle, some (eliminated n))

abbrev pub emit : Option Event → List Event → List Event
emit none es = es
emit (some e) es = e ∷ es

module _ (r : Random) where
  pub record Memory : Type 0 where
    pub top : ℕ
    pub next : ℕ → ℕ
    pub slots : ℕ → ℕ  -- the words of `new Exchanger[maxrange]`; `move` reads and writes no other
    pub gen : r.Gen

  abbrev pub Outcome : Type 0
  Outcome = Memory × Pc × Option Event

  unfoldable pub begin : Memory → Call → Outcome
  begin m (push node) = (m, push_read node 2, some (called node))
  begin m pop = (m, pop_test, none)

  -- One step of a thread; `now` is what the clock says.
  unfoldable pub move : Memory → Pc → Call → Timespec → Outcome
  unfolding begin
  move m idle c now = begin m c
  move m (push_read node range) c now = (m, push_link node m.top range, none)
  move m (push_link node n range) c now =
      (record m { next = update m.next node n }, push_swap node n range, none)
  move m (push_swap node n range) c now =
      if m.top == n
      then (record m { top = node }, idle, some (pushed node))
      else (m, push_draw node range, none)
  move m (push_draw node range) c now =
      let (slot, gen) = visit_index r maxrange range m.gen in
      if ltb slot maxrange
      then (record m { gen = gen }, push_visit slot range (entering node), none)
      else (record m { gen = gen }, past_end node, some overran)
  move m (push_visit slot range p) c now =
      let (w, p') = Exchange.move (m.slots slot) p now in
      let (q, e) = push_on slot range p' (visited p') in
      (record m { slots = update m.slots slot w }, q, e)
  move m pop_test c now = if m.top == 0 then (m, idle, some saw_empty) else (m, pop_read 2, none)
  move m (pop_read range) c now =
      (m, if m.top == 0 then pop_draw range else pop_next m.top range, none)
  move m (pop_next n range) c now = (m, pop_swap n (m.next n) range, none)
  move m (pop_swap n k range) c now =
      if m.top == n
      then (record m { top = k }, idle, some (popped n))
      else (m, pop_read range, none)
  move m (pop_draw range) c now =
      let (slot, gen) = visit_index r maxrange range m.gen in
      if ltb slot maxrange
      then (record m { gen = gen }, pop_visit slot range (entering 0), none)
      else (record m { gen = gen }, past_end 0, some overran)
  move m (pop_visit slot range p) c now =
      let (w, p') = Exchange.move (m.slots slot) p now in
      let (q, e) = pop_on slot range p' (visited p') in
      (record m { slots = update m.slots slot w }, q, e)
  move m (past_end node) c now = (m, past_end node, none)

  pub record State : Type 0 where
    pub memory : Memory
    pub pc : ℕ → Pc

  -- The constructor, with no thread in a call.
  abbrev pub start : State
  start = record {
    memory = record { top = 0; next = λ _. 0; slots = new_array; gen = r.seed visit_seed };
    pc = λ _. idle;
  }

  unfoldable pub step : State → ℕ → Choice → State × Option Event
  step s i (c, now) =
      let (m, p, e) = move s.memory (s.pc i) c now in
      (record { memory = m; pc = update s.pc i p }, e)

  -- A schedule run to its end, with the events in order.
  unfoldable pub run : State → List (ℕ × Choice) → State × List Event
  run s [] = (s, [])
  run s ((i, t) ∷ turns) = let (s', e) = step s i t in let (u, es) = run s' turns in (u, emit e es)

  abbrev pub pop_turns : Timespec → List (ℕ × Choice)
  pop_turns now = let turn : ℕ × Choice = (0, (pop, now)) in turn ∷ turn ∷ turn ∷ turn ∷ turn ∷ []

  -- The loop of the destructor, on fuel: while the list has a node, a call of pop, which no other
  -- thread disturbs, and the node that it returns is deleted.
  unfoldable pub destroy : ℕ → State → Timespec → List Event × State
  destroy zero s now = ([], s)
  destroy (suc k) s now =
      let (t, es) = run s (pop_turns now) in
      let (fs, u) = destroy k t now in if s.memory.top == 0 then ([], s) else (es ++ fs, u)
