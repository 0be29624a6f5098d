-- ===== src/Stacks/Elimination/Refines.antt =====
-- The elimination stack against a list.
use mathlib.Core.Logic.{ite}
use utd_cs6v81_spring.Base.{
  ℕ, ◌+◌, ◌≤◌, ◌<◌, ◌≡◌, ◌≢◌, refl, ap, ◌∙◌, Option, none, some, List, [], ◌∷◌, ◌++◌, ◌==◌, arith,
  ℕ_discrete,
}
use utd_cs6v81_spring.Base.Family.{Within, tally_const, le-tally, add-le-tally}
use utd_cs6v81_spring.Times.{Timespec}
use utd_cs6v81_spring.Locks.Backoff.{Random}
use utd_cs6v81_spring.Exchange.Steps.{slot_holds, one_if}
use utd_cs6v81_spring.Exchange
use utd_cs6v81_spring.Exchange.Visit.{visited}
use utd_cs6v81_spring.Stacks.LockFree
use utd_cs6v81_spring.Stacks.LockFree.Invariant.{Chain}
use utd_cs6v81_spring.Stacks.LockFree.Linearizable.{apply, replay, replay_from}
use utd_cs6v81_spring.Stacks.Elimination.{
  Pc, idle, push_read, push_link, push_swap, push_draw, push_visit, pop_test, pop_read, pop_next,
  pop_swap, pop_draw, pop_visit, past_end, push_on, pop_on, begin, Memory, Event, Call, Choice,
  push, pop, State, start, move, step, run, emit,
}
use utd_cs6v81_spring.Stacks.Elimination.Kept.{places, hands, arrives}
use utd_cs6v81_spring.Stacks.Elimination.Conserves.{
  IsAligned, AllAligned, InBounds, arrivals, emitted, Inv, total, step-Inv, start-Inv,
}
use utd_cs6v81_spring.Stacks.Elimination.Listed.{effects, Listed, Knows, after, move-Next}

-- The operations of a list that the events stand for.
abbrev pub actions : List Event → List LockFree.Event
actions [] = []
actions (e ∷ es) = effects (some e) ++ actions es

-- A call with a node that is not NULL.
abbrev pub IsNode : Call → Type 0
IsNode (push node) = node ≢ 0
IsNode pop = Unit

abbrev pub AllNodes : List (ℕ × Choice) → Type 0
AllNodes [] = Unit
AllNodes ((i, t) ∷ turns) = IsNode t.0 × AllNodes turns

-- How often the turns call a push with the node `v`.
abbrev pub one_push : ℕ → Call → ℕ
one_push v (push node) = one_if (node == v)
one_push v pop = 0

abbrev pub pushes : ℕ → List (ℕ × Choice) → ℕ
pushes v [] = 0
pushes v ((i, t) ∷ turns) = one_push v t.0 + pushes v turns

abbrev node_of : Call → ℕ
node_of (push node) = node
node_of pop = 0

abbrev is_push : Call → ℕ
is_push (push node) = 1
is_push pop = 0

IsNode-push : (c : Call) (node : ℕ) → IsNode c → c ≡ push node → node ≢ 0
IsNode-push (push a) node h e = λ z. h (ap node_of e ∙ z)
IsNode-push pop node h e = absurd (omega (arith, ap is_push e))

push_on-arrives :
    (v slot range : ℕ) (p : Exchange.Pc) (o : Option ℕ) → arrives v (push_on slot range p o).1 ≡ 0
push_on-arrives v slot range p none = refl
push_on-arrives v slot range p (some other) = ground arith

pop_on-arrives :
    (v slot range : ℕ) (p : Exchange.Pc) (o : Option ℕ) → arrives v (pop_on slot range p o).1 ≡ 0
pop_on-arrives v slot range p none = refl
pop_on-arrives v slot range p (some n) = ground arith

module _ (r : Random) where
  arrives-move :
      (v : ℕ) (m : Memory r) (p : Pc) (c : Call) (now : Timespec)
      → arrives v (move r m p c now).2 ≤ one_push v c
  unfolding move begin
  arrives-move v m idle (push node) now = omega arith
  arrives-move v m idle pop now = omega arith
  arrives-move v m (push_read node range) c now = omega arith
  arrives-move v m (push_link node n range) c now = omega arith
  arrives-move v m (push_swap node n range) c now = ground arith
  arrives-move v m (push_draw node range) c now = ground arith
  arrives-move v m (push_visit slot range p) c now =
      let p' = (Exchange.move (m.slots slot) p now).1 in
      omega (arith, push_on-arrives v slot range p' (visited p'))
  arrives-move v m pop_test c now = ground arith
  arrives-move v m (pop_read range) c now = omega arith
  arrives-move v m (pop_next n range) c now = omega arith
  arrives-move v m (pop_swap n k range) c now = ground arith
  arrives-move v m (pop_draw range) c now = ground arith
  arrives-move v m (pop_visit slot range p) c now =
      let p' = (Exchange.move (m.slots slot) p now).1 in
      omega (arith, pop_on-arrives v slot range p' (visited p'))
  arrives-move v m (past_end node) c now = omega arith

  arrivals-le :
      (v : ℕ) (s : State r) (turns : List (ℕ × Choice))
      → arrivals v (run r s turns).1 ≤ pushes v turns
  unfolding run step
  arrivals-le v s [] = omega arith
  arrivals-le v s ((i, t) ∷ turns) =
      let o = step r s i t in
      omega (
        arith,
        arrives-move v s.memory (s.pc i) t.0 t.1,
        emitted v o.1 (run r o.0 turns).1,
        arrivals-le v o.0 turns,
      )

replay-append :
    (es fs : List LockFree.Event) (o : Option (List ℕ)) (ys : List ℕ)
    → replay_from o (replay es) ≡ some ys
    → replay_from o (replay (es ++ fs)) ≡ replay fs ys
replay-append es fs none ys h = cc
replay-append [] fs (some xs) ys h = cc
replay-append (e ∷ es) fs (some xs) ys h = replay-append es fs (apply e xs) ys h

replay-actions :
    (e : Option Event) (es : List Event) (xs ys : List ℕ)
    → replay (effects e) xs ≡ some ys
    → replay (actions (emit e es)) xs ≡ replay (actions es) ys
replay-actions none es xs ys h = cc
replay-actions (some e) es xs ys h = replay-append (effects (some e)) (actions es) (some xs) ys h

module _ (r : Random) (k : ℕ) where
  -- `put` and `arr` count what the events so far have put on the list and called a push with.
  record Holds (s : State r) (xs : List ℕ) (put arr : ℕ → ℕ) : Type 0 where
    base : Inv r k s
    balance : (v : ℕ) → v ≢ 0 → total r k v s + put v ≡ arr v
    chain : Chain s.memory.next s.memory.top xs
    listed : Listed put xs
    knows : (i : ℕ) → i < k → Knows put s.memory.next (s.pc i)

  -- The list after a step, and that all this still holds.
  record Stepped (s : State r) (o : State r × Option Event) (xs : List ℕ) (put arr : ℕ → ℕ)
      : Type 0 where
    list : List ℕ
    effect : replay (effects o.1) xs ≡ some list
    holds : Holds o.0 list (after put o.1) (λ v. arr v + arrives v o.1)

  step-Stepped :
      (s : State r) (i : ℕ) (t : Choice) (xs : List ℕ) (put arr : ℕ → ℕ)
      → i < k
      → IsAligned t.0
      → IsNode t.0
      → ((v : ℕ) → v ≢ 0 → arr v ≤ 1)
      → Holds s xs put arr
      → Stepped s (step r s i t) xs put arr
  unfolding step
  step-Stepped s i t xs put arr b a node once h =
      let o = move r s.memory (s.pc i) t.0 t.1 in
      let (base, moved) = step-Inv r k s i t.0 t.1 b a h.base in
      let next =
        move-Next r s.memory (s.pc i) t.0 t.1 xs put (λ n e. IsNode-push t.0 n node e) h.chain
          h.listed
          (λ v nz own. omega (arith, h.balance v nz, once v nz, le-tally (hands v) k s.pc i b))
          (h.knows i b) in
      record {
        list = next.list;
        effect = next.effect;
        holds = record {
          base = base;
          balance = λ v nz. omega (arith, moved v nz, h.balance v nz);
          chain = next.chain;
          listed = next.listed;
          knows = λ j q.
              elim (ℕ_discrete i j) as (λ d. Knows (after put o.2) o.0.next (ite d o.1 (s.pc j))) [
                | yes same ↦ next.knows
                | no apart ↦
                    next.others (s.pc j)
                      (λ v nz. omega (
                        arith,
                        add-le-tally (hands v) k s.pc i j b q apart,
                        h.balance v nz,
                        once v nz,
                      ))
                      (h.knows j q)
              ];
        };
      }

  run-Refined :
      (s : State r) (turns : List (ℕ × Choice)) (xs : List ℕ) (put arr : ℕ → ℕ)
      → Within k turns
      → AllAligned turns
      → AllNodes turns
      → ((v : ℕ) → v ≢ 0 → arr v + arrivals v (run r s turns).1 ≤ 1)
      → Holds s xs put arr
      → let (u, es) = run r s turns in
        (ys : List ℕ) × (replay (actions es) xs ≡ some ys) × Chain u.memory.next u.memory.top ys
  unfolding run
  run-Refined s [] xs put arr b a n once h = (xs, refl, h.chain)
  run-Refined s ((i, t) ∷ turns) xs put arr b a n once h =
      let o = step r s i t in
      let rest_events = (run r o.0 turns).1 in
      let one = step-Stepped s i t xs put arr b.0 a.0 n.0 (λ v nz. omega (arith, once v nz)) h in
      let (ys, effect, chain) =
        run-Refined o.0 turns one.list (after put o.1) (λ v. arr v + arrives v o.1) b.1 a.1 n.1
          (λ v nz. omega (arith, once v nz, emitted v o.1 rest_events)) one.holds in
      (ys, replay-actions o.1 rest_events xs one.list one.effect ∙ effect, chain)

  -- EliminationStack with any number of threads, interleaved in any way, whose pushes are called
  -- with nodes at multiples of 4 that are not NULL, each at most once, as long as no visit has
  -- drawn the index past the end of the array: the completed operations, in the order of their
  -- compare and swaps, are those of a list that is empty at first, where a pop that returns the
  -- node of a push from the array counts, when it returns, as that push and the pop one after the
  -- other. Each pop returns the node on top, and NULL only when there is none. The nodes that hang
  -- on `head` at the end are that list.
  pub elimination_refines :
      (turns : List (ℕ × Choice))
      → Within k turns
      → AllAligned turns
      → AllNodes turns
      → ((v : ℕ) → pushes v turns ≤ 1)
      → InBounds (run r (start r) turns).1
      → let (s, es) = run r (start r) turns in
        (xs : List ℕ) × (replay (actions es) [] ≡ some xs) × Chain s.memory.next s.memory.top xs
  elimination_refines turns b a n once inside =
      run-Refined (start r) turns [] (λ v. 0) (λ v. 0) b a n
        (λ v nz. omega (arith, once v, arrivals-le r v (start r) turns))
        (record {
          base = start-Inv r k;
          balance = λ v nz. omega (
            arith,
            tally_const (slot_holds v) 0 places (start r).memory.slots (λ i q. refl),
            tally_const (hands v) 0 k (start r).pc (λ i q. refl),
          );
          chain = refl;
          listed = tt;
          knows = λ i q. tt;
        })
