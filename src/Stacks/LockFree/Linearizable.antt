-- ===== src/Stacks/LockFree/Linearizable.antt =====
-- The stack against a list: every push and pop of every schedule takes effect on the list at once.
use utd_cs6v81_spring.Base.{
  ℕ, ◌≡◌, refl, ◌∙◌, Option, none, some, List, [], ◌∷◌, arith, ◌==◌, ◌||◌, Bool-cases, inl, inr,
  if◌then◌else◌,
}
use utd_cs6v81_spring.Base.Family.{update}
use utd_cs6v81_spring.Stacks.LockFree.{
  Memory, Pc, idle, push_read, push_link, push_swap, push_wait, pop_test, pop_read, pop_next,
  pop_swap, Event, pushed, popped, saw_empty, Choice, push_new, pop, begin, move, State, start,
  step, emit, run, Outcome,
}
use utd_cs6v81_spring.Stacks.LockFree.Invariant.{Chain, Inv}
use utd_cs6v81_spring.Stacks.LockFree.Steps.{
  stay_Inv, new_Inv, link_Inv, push_Inv, pop_Inv, top_zero, top_known,
}

-- The stack as a list, newest first; `none` where the event cannot happen.
abbrev pub apply : Event → List ℕ → Option (List ℕ)
apply (pushed a) xs = some (a ∷ xs)
apply (popped a) [] = none
apply (popped a) (x ∷ xs) = if x == a then some xs else none
apply saw_empty [] = some []
apply saw_empty (x ∷ xs) = none

abbrev pub apply? : Option Event → List ℕ → Option (List ℕ)
apply? none xs = some xs
apply? (some e) xs = apply e xs

abbrev pub replay_from : Option (List ℕ) → (List ℕ → Option (List ℕ)) → Option (List ℕ)
replay_from none f = none
replay_from (some xs) f = f xs

abbrev pub replay : List Event → List ℕ → Option (List ℕ)
replay [] xs = some xs
replay (e ∷ es) xs = replay_from (apply e xs) (replay es)

-- After an outcome of thread `i`: what the event makes of the list, and the invariant of the new
-- state.
record Next (o : Outcome) (pc : ℕ → Pc) (i : ℕ) (xs : List ℕ) : Type 0 where
  list : List ℕ
  effect : apply? o.2 xs ≡ some list
  inv : Inv o.0 (update pc i o.1) list

module _ {m : Memory} {pc : ℕ → Pc} {xs : List ℕ} (inv : Inv m pc xs) (i : ℕ) where
  move_Next : (p : Pc) (c : Choice) → pc i ≡ p → Next (move m p c) pc i xs
  unfolding move begin
  move_Next idle pop e = record {
    list = xs;
    effect = refl;
    inv = stay_Inv inv i pop_test tt (ground arith) (λ h. ground arith);
  }
  move_Next idle (push_new a) e = elim (Bool-cases (a == 0 || m.allocated a)) [
    | inl used ↦ rw used (record {
      list = xs;
      effect = refl;
      inv = stay_Inv inv i idle tt (ground arith) (λ h. ground arith);
    })
    | inr new ↦
        rw new (record {
          list = xs;
          effect = refl;
          inv = new_Inv inv i a e (ground arith) (ground arith);
        })
  ]
  move_Next (push_read a) c e = record {
    list = xs;
    effect = refl;
    inv =
        stay_Inv inv i (push_link a m.top) (ground (arith, inv.knows i)) (ground arith)
          (λ h. ground arith);
  }
  move_Next (push_link a n) c e = record { list = xs; effect = refl; inv = link_Inv inv i a n e }
  move_Next (push_swap a n) c e = elim (Bool-cases (m.top == n)) [
    | inl hit ↦
        rw hit (record { list = a ∷ xs; effect = refl; inv = push_Inv inv i a n e (ground arith) })
    | inr miss ↦ rw miss (record {
      list = xs;
      effect = refl;
      inv =
          stay_Inv inv i (push_wait a) (ground (arith, inv.knows i)) (ground arith)
            (λ h. ground arith);
    })
  ]
  move_Next (push_wait a) c e = record {
    list = xs;
    effect = refl;
    inv =
        stay_Inv inv i (push_read a) (ground (arith, inv.knows i)) (ground arith)
          (λ h. ground arith);
  }
  move_Next pop_test c e = elim (Bool-cases (m.top == 0)) [
    | inl empty ↦
        let none_left = top_zero i xs inv (ground arith) in
        rw empty (record {
          list = xs;
          effect = rw none_left refl;
          inv = stay_Inv inv i idle tt (ground arith) (λ h. ground arith);
        })
    | inr full ↦ rw full (record {
      list = xs;
      effect = refl;
      inv = stay_Inv inv i pop_read tt (ground arith) (λ h. ground arith);
    })
  ]
  move_Next pop_read c e = elim (Bool-cases (m.top == 0)) [
    | inl empty ↦ rw empty (record {
      list = xs;
      effect = refl;
      inv = stay_Inv inv i pop_test tt (ground arith) (λ h. ground arith);
    })
    | inr full ↦
        let (al, pub_node) = top_known i xs inv (ground arith) in
        rw full (record {
          list = xs;
          effect = refl;
          inv = stay_Inv inv i (pop_next m.top) (ground arith) (ground arith) (λ h j. pub_node j);
        })
  ]
  move_Next (pop_next n) c e = record {
    list = xs;
    effect = refl;
    inv =
        stay_Inv inv i (pop_swap n (m.next n)) (ground (arith, inv.knows i)) (ground arith)
          (λ h j. ground (arith, inv.linked i j));
  }
  move_Next (pop_swap n k) c e = elim (Bool-cases (m.top == n)) [
    | inl hit ↦
        let (ys, eq, inv') = pop_Inv i xs n k inv e (ground arith) in
        rw hit (record { list = ys; effect = rw eq (ground arith); inv = inv' })
    | inr miss ↦ rw miss (record {
      list = xs;
      effect = refl;
      inv = stay_Inv inv i pop_read tt (ground arith) (λ h. ground arith);
    })
  ]

start_Inv : Inv start.memory start.pc []
start_Inv = record {
  chain = refl;
  known = tt;
  knows = λ i. tt;
  apart = λ i j h. absurd (h refl);
  unlinked = λ i. tt;
  linked = λ i j h. absurd (h refl);
}

-- The list that some events leave, for the state that they lead to.
record Reached (s : State) (es : List Event) (xs : List ℕ) : Type 0 where
  list : List ℕ
  effect : replay es xs ≡ some list
  chain : Chain s.memory.next s.memory.top list

replay-emit :
    (e : Option Event) (es : List Event) (xs ys : List ℕ)
    → apply? e xs ≡ some ys
    → replay (emit e es) xs ≡ replay es ys
replay-emit none es xs ys h = ground arith
replay-emit (some e) es xs ys h = rw h refl

run-Reached :
    (s : State) (cs : List (ℕ × Choice)) (xs : List ℕ)
    → Inv s.memory s.pc xs
    → Reached (run s cs).0 (run s cs).1 xs
unfolding run step
run-Reached s [] xs inv = record { list = xs; effect = refl; chain = inv.chain }
run-Reached s ((i, c) ∷ cs) xs inv =
    let o = move s.memory (s.pc i) c in
    let one = move_Next inv i (s.pc i) c refl in
    let rest = run-Reached (record { memory = o.0; pc = update s.pc i o.1 }) cs one.list one.inv in
    record {
      list = rest.list;
      effect = replay-emit o.2 _ xs one.list one.effect ∙ rest.effect;
      chain = rest.chain;
    }

-- LockFreeStack, for any number of threads and any interleaving, while no node is deleted: the
-- completed operations, in the order of their compare and swaps (for a pop that returns NULL, of its
-- test), are those of a list that is empty at first: each pop returns the node on top, and NULL only
-- when there is none. The nodes that hang on `head` at the end are that list.
pub linearizable :
    (cs : List (ℕ × Choice))
    → let (s, es) = run start cs in
      (xs : List ℕ) × (replay es [] ≡ some xs) × Chain s.memory.next s.memory.top xs
linearizable cs = let r = run-Reached start cs [] start_Inv in (r.list, r.effect, r.chain)
