-- ===== src/Stacks/Elimination/Conserves.antt =====
-- What the elimination stack promises of its nodes.
use mathlib.Core.Logic.{ite}
use utd_cs6v81_spring.Base.{
  ℕ, ◌+◌, ◌%◌, ◌≤◌, ◌<◌, ◌≡◌, ◌≢◌, refl, ap, Bool-cases, inl, inr, Option, none, some, List, [],
  ◌∷◌, ◌==◌, ltb, ltb→lt, arith, ℕ_discrete,
}
use utd_cs6v81_spring.Base.Family.{Within, tally, tally-update, tally_const, le-tally, add-le-tally}
use utd_cs6v81_spring.Times.{Timespec}
use utd_cs6v81_spring.Locks.Backoff.{Random}
use utd_cs6v81_spring.Exchange
use utd_cs6v81_spring.Exchange.Steps
use utd_cs6v81_spring.Exchange.Visit.{visit_index}
use utd_cs6v81_spring.Exchange.Steps.{owns, occupied, slot_holds, IsWord}
use utd_cs6v81_spring.Stacks.Elimination.{
  Pc, idle, push_read, push_link, push_swap, push_draw, push_visit, pop_test, pop_read, pop_next,
  pop_swap, pop_draw, pop_visit, past_end, Event, overran, Call, Choice, push, pop, maxrange, begin,
  move, Memory, State, start, step, run, emit,
}
use utd_cs6v81_spring.Stacks.Elimination.Kept.{
  places, owns_at, hands, Knows, arrives, leaves, slots_hold, Kept, stay,
}
use utd_cs6v81_spring.Stacks.Elimination.Visits.{visit-Kept, push_on-After, pop_on-After}

-- A call with a node whose address is a multiple of 4.
abbrev pub IsAligned : Call → Type 0
IsAligned (push node) = node % 4 ≡ 0
IsAligned pop = Unit

abbrev pub AllAligned : List (ℕ × Choice) → Type 0
AllAligned [] = Unit
AllAligned ((i, t) ∷ turns) = IsAligned t.0 × AllAligned turns

abbrev pub arrivals : ℕ → List Event → ℕ
arrivals v [] = 0
arrivals v (e ∷ es) = arrives v (some e) + arrivals v es

abbrev pub departures : ℕ → List Event → ℕ
departures v [] = 0
departures v (e ∷ es) = leaves v (some e) + departures v es

-- No visit has drawn the index past the end of the array.
abbrev pub InBounds : List Event → Type 0
InBounds [] = Unit
InBounds (overran ∷ es) = ⊥
InBounds (e ∷ es) = InBounds es

pub emitted :
    (v : ℕ) (e : Option Event) (es : List Event)
    → (arrivals v (emit e es) ≡ arrives v e + arrivals v es)
      × (departures v (emit e es) ≡ leaves v e + departures v es)
emitted v none es = (omega arith, omega arith)
emitted v (some e) es = (refl, refl)

module _ (r : Random) where
  few_here :
      (slots : ℕ → ℕ) (slot : ℕ) (p : Exchange.Pc)
      → ((j : ℕ) → ite (ℕ_discrete slot j) (owns p) 0 ≤ occupied (slots j))
      → owns p ≤ occupied (slots slot)
  few_here slots slot p few =
      elim (ℕ_discrete slot slot)
          as (λ d. ite d (owns p) 0 ≤ occupied (slots slot) → owns p ≤ occupied (slots slot)) [
            | yes same ↦ λ h. h
            | no apart ↦ λ h. absurd (apart refl)
          ]
        (few slot)

  move-Kept :
      (m : Memory r) (p : Pc) (c : Call) (now : Timespec)
      → IsAligned c
      → ((j : ℕ) → IsWord (m.slots j))
      → ((j : ℕ) → owns_at j p ≤ occupied (m.slots j))
      → Knows m.slots p
      → Kept m.slots p (move r m p c now).0.slots (move r m p c now).1 (move r m p c now).2
  unfolding move begin
  move-Kept m idle (push node) now a w few k =
      stay m.slots w _ _ _ a (λ j. refl) (λ v _. omega arith)
  move-Kept m idle pop now a w few k = stay m.slots w _ _ _ tt (λ j. refl) (λ v _. refl)
  move-Kept m (push_read node range) c now a w few k =
      stay m.slots w _ _ _ k (λ j. refl) (λ v _. refl)
  move-Kept m (push_link node n range) c now a w few k =
      stay m.slots w _ _ _ k (λ j. refl) (λ v _. refl)
  move-Kept m (push_swap node n range) c now a w few k = elim (Bool-cases (m.top == n)) [
    | inl same ↦ rw same (stay m.slots w _ _ _ tt (λ j. refl) (λ v _. omega arith))
    | inr other ↦ rw other (stay m.slots w _ _ _ k (λ j. refl) (λ v _. refl))
  ]
  move-Kept m (push_draw node range) c now a w few k =
      elim (Bool-cases (ltb (visit_index r maxrange range m.gen).0 maxrange)) [
        | inl inside ↦
            rw inside
              (stay m.slots w _ _ _ (ltb→lt _ _ inside, k) (λ j. ground arith) (λ v _. refl))
        | inr past ↦ rw past (stay m.slots w _ _ _ k (λ j. refl) (λ v _. refl))
      ]
  move-Kept m (push_visit slot range p) c now a w few k =
      let kept = Steps.move-Kept (m.slots slot) now (w slot) p k.1 (few_here m.slots slot p few) in
      visit-Kept m.slots slot _ p _ k.0 kept _ _ _ w (λ j. refl) (λ v. refl)
        (push_on-After slot range (Exchange.move (m.slots slot) p now).1)
  move-Kept m pop_test c now a w few k = elim (Bool-cases (m.top == 0)) [
    | inl same ↦ rw same (stay m.slots w _ _ _ tt (λ j. refl) (λ v _. refl))
    | inr other ↦ rw other (stay m.slots w _ _ _ tt (λ j. refl) (λ v _. refl))
  ]
  move-Kept m (pop_read range) c now a w few k = elim (Bool-cases (m.top == 0)) [
    | inl same ↦ rw same (stay m.slots w _ _ _ tt (λ j. refl) (λ v _. refl))
    | inr other ↦ rw other (stay m.slots w _ _ _ tt (λ j. refl) (λ v _. refl))
  ]
  move-Kept m (pop_next n range) c now a w few k = stay m.slots w _ _ _ tt (λ j. refl) (λ v _. refl)
  move-Kept m (pop_swap n l range) c now a w few k = elim (Bool-cases (m.top == n)) [
    | inl same ↦ rw same (stay m.slots w _ _ _ tt (λ j. refl) (λ v _. refl))
    | inr other ↦ rw other (stay m.slots w _ _ _ tt (λ j. refl) (λ v _. refl))
  ]
  move-Kept m (pop_draw range) c now a w few k =
      elim (Bool-cases (ltb (visit_index r maxrange range m.gen).0 maxrange)) [
        | inl inside ↦ rw inside (
            stay m.slots w _ _ _ (ltb→lt _ _ inside, refl) (λ j. ground arith)
              (λ v nz. ground (arith, nz)))
        | inr past ↦ rw past (stay m.slots w _ _ _ refl (λ j. refl) (λ v nz. ground (arith, nz)))
      ]
  move-Kept m (past_end node) c now a w few k = stay m.slots w _ _ _ k (λ j. refl) (λ v _. refl)
  move-Kept m (pop_visit slot range p) c now a w few k =
      let kept = Steps.move-Kept (m.slots slot) now (w slot) p k.1 (few_here m.slots slot p few) in
      visit-Kept m.slots slot _ p _ k.0 kept _ _ _ w (λ j. refl) (λ v. refl)
        (pop_on-After slot range (Exchange.move (m.slots slot) p now).1)

  pub record Inv (k : ℕ) (s : State r) : Type 0 where
    pub words : (j : ℕ) → IsWord (s.memory.slots j)
    pub knows : (i : ℕ) → i < k → Knows s.memory.slots (s.pc i)
    pub owner : (j : ℕ) → tally (owns_at j) k s.pc ≡ occupied (s.memory.slots j)

  -- The nodes in the exchangers and with the first `k` threads.
  abbrev pub total : ℕ → ℕ → State r → ℕ
  total k v s = slots_hold v s.memory.slots + tally (hands v) k s.pc

  module _ (k : ℕ) where
    pub step-Inv :
        (s : State r) (i : ℕ) (c : Call) (now : Timespec)
        → i < k
        → IsAligned c
        → Inv k s
        → Inv k (step r s i (c, now)).0
          × ((v : ℕ)
              → v ≢ 0
              → total k v (step r s i (c, now)).0 + leaves v (step r s i (c, now)).1
                ≡ total k v s + arrives v (step r s i (c, now)).1)
    unfolding step
    step-Inv s i c now b a inv =
        let m = move r s.memory (s.pc i) c now in
        let kept =
          move-Kept s.memory (s.pc i) c now a inv.words
            (λ j. omega (arith, le-tally (owns_at j) k s.pc i b, inv.owner j)) (inv.knows i b) in
        (
          record {
            words = kept.words;
            knows = λ j q. elim (ℕ_discrete i j) as (λ d. Knows m.0.slots (ite d m.1 (s.pc j))) [
              | yes same ↦ kept.knows
              | no apart ↦
                  kept.others (s.pc j)
                    (λ x. omega (arith, add-le-tally (owns_at x) k s.pc i j b q apart, inv.owner x))
                    (inv.knows j q)
            ];
            owner = λ j.
                omega (arith, tally-update (owns_at j) k s.pc i m.1 b, kept.owner j, inv.owner j);
          },
          λ v nz. omega (arith, tally-update (hands v) k s.pc i m.1 b, kept.nodes v nz),
        )

    run-Inv :
        (s : State r) (turns : List (ℕ × Choice))
        → Within k turns
        → AllAligned turns
        → Inv k s
        → Inv k (run r s turns).0
          × ((v : ℕ)
              → v ≢ 0
              → total k v (run r s turns).0 + departures v (run r s turns).1
                ≡ total k v s + arrivals v (run r s turns).1)
    unfolding run
    run-Inv s [] b a inv = (inv, λ v nz. refl)
    run-Inv s ((i, t) ∷ turns) b a inv =
        let (inv', one) = step-Inv s i t.0 t.1 b.0 a.0 inv in
        let (inv'', rest) = run-Inv (step r s i t).0 turns b.1 a.1 inv' in
        (
          inv'',
          λ v nz. omega (
            arith,
            one v nz,
            rest v nz,
            emitted v (step r s i t).1 (run r (step r s i t).0 turns).1,
          ),
        )

    pub start-Inv : Inv k (start r)
    start-Inv = record {
      words = λ j. ((λ q. omega (arith, q)), λ q. refl);
      knows = λ i b. tt;
      owner = λ j. omega (arith, tally_const (owns_at j) 0 k (start r).pc (λ i b. refl));
    }

  -- Any number of threads push nodes whose addresses are multiples of 4, and pop, interleaved in
  -- any way, as long as no visit has drawn the index past the end of the array: at every moment
  -- each node is as often in the exchangers and with the threads, put on the list, or returned by a
  -- pop that has met a push, as pushes were called with it. So the array loses no node, and makes
  -- none up.
  pub elimination_conserves :
      (k : ℕ) (turns : List (ℕ × Choice)) (v : ℕ)
      → Within k turns
      → AllAligned turns
      → v ≢ 0
      → InBounds (run r (start r) turns).1
      → let (s, es) = run r (start r) turns in total k v s + departures v es ≡ arrivals v es
  elimination_conserves k turns v b a nz inside =
      let kept = (run-Inv k (start r) turns b a (start-Inv k)).1 v nz in
      omega (
        arith,
        kept,
        tally_const (slot_holds v) 0 places (start r).memory.slots (λ i q. refl),
        tally_const (hands v) 0 k (start r).pc (λ i q. refl),
      )

  -- When every thread is idle again, and no visit has drawn the index past the end of the array,
  -- the exchangers are all EMPTY, and each node has been put on the list, or returned by a pop that
  -- has met a push, as often as pushes were called with it.
  pub elimination_settles :
      (k : ℕ) (turns : List (ℕ × Choice)) (v : ℕ)
      → Within k turns
      → AllAligned turns
      → v ≢ 0
      → InBounds (run r (start r) turns).1
      → ((i : ℕ) → i < k → (run r (start r) turns).0.pc i ≡ idle)
      → let (s, es) = run r (start r) turns in
        ((j : ℕ) → s.memory.slots j ≡ 0) × (departures v es ≡ arrivals v es)
  elimination_settles k turns v b a nz inside quiet =
      let s = (run r (start r) turns).0 in
      let inv = (run-Inv k (start r) turns b a (start-Inv k)).0 in
      let vacant : (j : ℕ) → s.memory.slots j ≡ 0 = λ j. ground (
        arith,
        inv.owner j,
        tally_const (owns_at j) 0 k s.pc (λ i q. ap (owns_at j) (quiet i q)),
      ) in
      (
        vacant,
        omega (
          arith,
          elimination_conserves k turns v b a nz inside,
          tally_const (slot_holds v) 0 places s.memory.slots (λ i q. ap (slot_holds v) (vacant i)),
          tally_const (hands v) 0 k s.pc (λ i q. ap (hands v) (quiet i q)),
        ),
      )
