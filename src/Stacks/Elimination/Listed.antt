-- ===== src/Stacks/Elimination/Listed.antt =====
-- The list that hangs on `head` of an elimination stack, whose nodes are each pushed only once, and
-- what one step makes of it.
use utd_cs6v81_spring.Base.{
  ℕ, ◌+◌, ◌≤◌, ◌≡◌, ◌≢◌, refl, sym, ◌∙◌, Bool-cases, inl, inr, Option, none, some, List, [], ◌∷◌,
  ◌==◌, ltb, arith,
}
use utd_cs6v81_spring.Base.Family.{update}
use utd_cs6v81_spring.Times.{Timespec}
use utd_cs6v81_spring.Locks.Backoff.{Random}
use utd_cs6v81_spring.Exchange
use utd_cs6v81_spring.Exchange.Visit.{visited, visit_index}
use utd_cs6v81_spring.Stacks.LockFree
use utd_cs6v81_spring.Stacks.LockFree.Invariant.{Chain, Avoids}
use utd_cs6v81_spring.Stacks.LockFree.Steps.{Chain-update}
use utd_cs6v81_spring.Stacks.LockFree.Linearizable.{replay}
use utd_cs6v81_spring.Stacks.Elimination.{
  Pc, idle, push_read, push_link, push_swap, push_draw, push_visit, pop_test, pop_read, pop_next,
  pop_swap, pop_draw, pop_visit, past_end, Event, called, pushed, handed_over, popped, eliminated,
  saw_empty, overran, maxrange, Call, push, pop, push_on, pop_on, begin, move, Memory, Outcome,
}
use utd_cs6v81_spring.Stacks.Elimination.Kept.{hands, leaves}

-- What a step does to the list: a pop that has met a push counts, when it returns, as that push and a
-- pop of the same node.
abbrev pub effects : Option Event → List LockFree.Event
effects (some (pushed a)) = LockFree.pushed a ∷ []
effects (some (popped a)) = LockFree.popped a ∷ []
effects (some (eliminated a)) = LockFree.pushed a ∷ LockFree.popped a ∷ []
effects (some saw_empty) = LockFree.saw_empty ∷ []
effects e = []

-- Every node of the list has been put there; `put` counts how often.
abbrev pub Listed : (ℕ → ℕ) → List ℕ → Type 0
Listed put [] = Unit
Listed put (x ∷ xs) = (1 ≤ put x) × Listed put xs

abbrev pub Knows : (ℕ → ℕ) → (ℕ → ℕ) → Pc → Type 0
Knows put next (push_read node range) = node ≢ 0
Knows put next (push_link node n range) = node ≢ 0
Knows put next (push_swap node n range) = (node ≢ 0) × (next node ≡ n)
Knows put next (push_draw node range) = node ≢ 0
Knows put next (pop_next n range) = (n ≢ 0) × (1 ≤ put n)
Knows put next (pop_swap n m range) = (n ≢ 0) × (1 ≤ put n) × (next n ≡ m)
Knows put next p = Unit

abbrev pub after : (ℕ → ℕ) → Option Event → ℕ → ℕ
after put e = λ v. put v + leaves v e

Listed-later :
    (put put' : ℕ → ℕ) (xs : List ℕ) → ((v : ℕ) → put v ≤ put' v) → Listed put xs → Listed put' xs
Listed-later put put' [] more l = tt
Listed-later put put' (x ∷ xs) more l =
    (omega (arith, more x, l.0), Listed-later put put' xs more l.1)

-- What a thread knows outlives a write to the field `next` of a node that is not its own and that
-- is not on the list.
Knows-later :
    (put put' next next' : ℕ → ℕ) (q : Pc)
    → ((v : ℕ) → put v ≤ put' v)
    → ((v : ℕ) → v ≢ 0 → 1 ≤ put v → next' v ≡ next v)
    → ((v : ℕ) → v ≢ 0 → 1 ≤ hands v q → next' v ≡ next v)
    → Knows put next q
    → Knows put' next' q
Knows-later put put' next next' idle more kept own k = k
Knows-later put put' next next' (push_read node range) more kept own k = k
Knows-later put put' next next' (push_link node n range) more kept own k = k
Knows-later put put' next next' (push_swap node n range) more kept own k =
    (k.0, ground (arith, own node k.0, k.1))
Knows-later put put' next next' (push_draw node range) more kept own k = k
Knows-later put put' next next' (push_visit slot range p) more kept own k = k
Knows-later put put' next next' pop_test more kept own k = k
Knows-later put put' next next' (pop_read range) more kept own k = k
Knows-later put put' next next' (pop_next n range) more kept own k =
    (k.0, omega (arith, more n, k.1))
Knows-later put put' next next' (pop_swap n m range) more kept own k =
    (k.0, omega (arith, more n, k.1), ground (arith, kept n k.0 k.1, k.2))
Knows-later put put' next next' (pop_draw range) more kept own k = k
Knows-later put put' next next' (pop_visit slot range p) more kept own k = k
Knows-later put put' next next' (past_end node) more kept own k = k

Avoids-unput : (put : ℕ → ℕ) (a : ℕ) (xs : List ℕ) → Listed put xs → put a ≡ 0 → Avoids a xs
Avoids-unput put a [] l e = tt
Avoids-unput put a (x ∷ xs) l e = ((λ q. ground (arith, q, l.0, e)), Avoids-unput put a xs l.1 e)

module _ (r : Random) where
  -- After an outcome from the memory `m` and the place `p`: the list, and what the threads know.
  pub record Next (m : Memory r) (p : Pc) (o : Outcome r) (xs : List ℕ) (put : ℕ → ℕ) : Type 0 where
    pub list : List ℕ
    pub effect : replay (effects o.2) xs ≡ some list
    pub chain : Chain o.0.next o.0.top list
    pub listed : Listed (after put o.2) list
    pub knows : Knows (after put o.2) o.0.next o.1
    pub others :
        (q : Pc)
        → ((v : ℕ) → v ≢ 0 → hands v p + hands v q ≤ 1)
        → Knows put m.next q
        → Knows (after put o.2) o.0.next q

  module _ (m : Memory r) (xs : List ℕ) (put : ℕ → ℕ) (c : Chain m.next m.top xs)
      (l : Listed put xs) where
    -- A step that leaves the list as it is.
    stay :
        (m' : Memory r) (p p' : Pc) (e : Option Event)
        → m'.next ≡ m.next
        → m'.top ≡ m.top
        → replay (effects e) xs ≡ some xs
        → Knows (after put e) m.next p'
        → Next m p (m', p', e) xs put
    stay m' p p' e same_next same_top f k = record {
      list = xs;
      effect = f;
      chain = rw (same_next, same_top) c;
      listed = Listed-later put (after put e) xs (λ v. omega arith) l;
      knows = rw same_next k;
      others = λ q few known.
          Knows-later put (after put e) m.next m'.next q (λ v. omega arith)
            (λ v nz h. rw same_next refl) (λ v nz h. rw same_next refl) known;
    }

    link :
        (node n range : ℕ)
        → node ≢ 0
        → put node ≡ 0
        → Next m
            (push_link node n range)
            (record m { next = update m.next node n }, push_swap node n range, none)
            xs
            put
    link node n range nz unput = record {
      list = xs;
      effect = refl;
      chain = Chain-update m.next node n m.top xs (Avoids-unput put node xs l unput) c;
      listed = Listed-later put (after put none) xs (λ v. omega arith) l;
      knows = (nz, ground arith);
      others = λ q few known.
          Knows-later put (after put none) m.next (update m.next node n) q (λ v. omega arith)
            (λ v z h. ground (arith, unput)) (λ v z h. ground (arith, few v z)) known;
    }

    push_hit :
        (node n range : ℕ)
        → node ≢ 0
        → m.next node ≡ n
        → m.top ≡ n
        → Next m (push_swap node n range) (record m { top = node }, idle, some (pushed node)) xs put
    push_hit node n range nz e same = record {
      list = node ∷ xs;
      effect = refl;
      chain = (refl, nz, rw (e ∙ sym same) c);
      listed = (ground arith, Listed-later put _ xs (λ v. omega arith) l);
      knows = tt;
      others = λ q few known.
          Knows-later put (after put (some (pushed node))) m.next m.next q (λ v. omega arith)
            (λ v z h. refl) (λ v z h. refl) known;
    }

  pop_hit :
      (m : Memory r) (xs : List ℕ) (put : ℕ → ℕ) (n k range : ℕ)
      → Chain m.next m.top xs
      → Listed put xs
      → n ≢ 0
      → m.next n ≡ k
      → m.top ≡ n
      → Next m (pop_swap n k range) (record m { top = k }, idle, some (popped n)) xs put
  pop_hit m [] put n k range c l nz e same = absurd (nz (omega (arith, c, same)))
  pop_hit m (x ∷ xs) put n k range c l nz e same =
      let first : x ≡ n = omega (arith, c.0, same) in
      record {
        list = xs;
        effect = ground (arith, first);
        chain = rw (sym e, sym first) c.2;
        listed = Listed-later put _ xs (λ v. omega arith) l.1;
        knows = tt;
        others = λ q few known.
            Knows-later put (after put (some (popped n))) m.next m.next q (λ v. omega arith)
              (λ v z h. refl) (λ v z h. refl) known;
      }

  -- What `head->next` gives: NULL on the empty list only, and a node that has been put there.
  top_zero : (m : Memory r) (xs : List ℕ) → Chain m.next m.top xs → m.top ≡ 0 → xs ≡ []
  top_zero m [] c e = refl
  top_zero m (x ∷ xs) c e = absurd (c.1 (omega (arith, c.0, e)))

  top_put :
      (m : Memory r) (xs : List ℕ) (put : ℕ → ℕ)
      → Chain m.next m.top xs
      → Listed put xs
      → m.top ≢ 0
      → 1 ≤ put m.top
  top_put m [] put c l ne = absurd (ne c)
  top_put m (x ∷ xs) put c l ne = rw c.0 l.0

  -- The end of a step of a visit; the list and the fields `next` stay.
  module _ (m m' : Memory r) (xs : List ℕ) (put : ℕ → ℕ) (c : Chain m.next m.top xs)
      (l : Listed put xs) (same_next : m'.next ≡ m.next) (same_top : m'.top ≡ m.top)
      (slot range : ℕ) where
    push_back :
        (p p' : Exchange.Pc) (o : Option ℕ)
        → let (q, e) = push_on slot range p' o in Next m (push_visit slot range p) (m', q, e) xs put
    push_back p p' none = stay m xs put c l m' _ _ none same_next same_top refl tt
    push_back p p' (some other) = elim (Bool-cases (other == 0)) [
      | inl gone ↦ rw gone (stay m xs put c l m' _ _ (some handed_over) same_next same_top refl tt)
      | inr node ↦ rw node (stay m xs put c l m' _ _ none same_next same_top refl (ground arith))
    ]

    pop_back :
        (p p' : Exchange.Pc) (o : Option ℕ)
        → let (q, e) = pop_on slot range p' o in Next m (pop_visit slot range p) (m', q, e) xs put
    pop_back p p' none = stay m xs put c l m' _ _ none same_next same_top refl tt
    pop_back p p' (some n) = elim (Bool-cases (n == 0)) [
      | inl gone ↦ rw gone (stay m xs put c l m' _ _ none same_next same_top refl tt)
      | inr node ↦
          rw node
            (stay m xs put c l m' _ _ (some (eliminated n)) same_next same_top (ground arith) tt)
    ]

  pub move-Next :
      (m : Memory r) (p : Pc) (call : Call) (now : Timespec) (xs : List ℕ) (put : ℕ → ℕ)
      → ((node : ℕ) → call ≡ push node → node ≢ 0)
      → Chain m.next m.top xs
      → Listed put xs
      → ((v : ℕ) → v ≢ 0 → 1 ≤ hands v p → put v ≡ 0)
      → Knows put m.next p
      → Next m p (move r m p call now) xs put
  unfolding move begin
  move-Next m idle (push node) now xs put real c l mine k =
      stay m xs put c l m _ _ (some (called node)) refl refl refl (real node refl)
  move-Next m idle pop now xs put real c l mine k = stay m xs put c l m _ _ none refl refl refl tt
  move-Next m (push_read node range) call now xs put real c l mine k =
      stay m xs put c l m _ _ none refl refl refl k
  move-Next m (push_link node n range) call now xs put real c l mine k =
      link m xs put c l node n range k (mine node k (ground arith))
  move-Next m (push_swap node n range) call now xs put real c l mine k =
      elim (Bool-cases (m.top == n)) [
        | inl hit ↦ rw hit (push_hit m xs put c l node n range k.0 k.1 (ground arith))
        | inr miss ↦ rw miss (stay m xs put c l m _ _ none refl refl refl k.0)
      ]
  move-Next m (push_draw node range) call now xs put real c l mine k =
      elim (Bool-cases (ltb (visit_index r maxrange range m.gen).0 maxrange)) [
        | inl inside ↦ rw inside (stay m xs put c l _ _ _ none refl refl refl tt)
        | inr past ↦ rw past (stay m xs put c l _ _ _ (some overran) refl refl refl tt)
      ]
  move-Next m (push_visit slot range p) call now xs put real c l mine k =
      push_back m _ xs put c l refl refl slot range p _
        (visited (Exchange.move (m.slots slot) p now).1)
  move-Next m pop_test call now xs put real c l mine k = elim (Bool-cases (m.top == 0)) [
    | inl empty ↦ rw empty (
        stay m xs put c l m _ _ (some saw_empty) refl refl
          (let none_left = top_zero m xs c (ground arith) in rw none_left refl) tt)
    | inr full ↦ rw full (stay m xs put c l m _ _ none refl refl refl tt)
  ]
  move-Next m (pop_read range) call now xs put real c l mine k = elim (Bool-cases (m.top == 0)) [
    | inl empty ↦ rw empty (stay m xs put c l m _ _ none refl refl refl tt)
    | inr full ↦ rw full (
        stay m xs put c l m _ _ none refl refl refl
          (let ne : m.top ≢ 0 = ground arith in (ne, omega (arith, top_put m xs put c l ne))))
  ]
  move-Next m (pop_next n range) call now xs put real c l mine k =
      stay m xs put c l m _ _ none refl refl refl (k.0, omega (arith, k.1), refl)
  move-Next m (pop_swap n j range) call now xs put real c l mine k =
      elim (Bool-cases (m.top == n)) [
        | inl hit ↦ rw hit (pop_hit m xs put n j range c l k.0 k.2 (ground arith))
        | inr miss ↦ rw miss (stay m xs put c l m _ _ none refl refl refl tt)
      ]
  move-Next m (pop_draw range) call now xs put real c l mine k =
      elim (Bool-cases (ltb (visit_index r maxrange range m.gen).0 maxrange)) [
        | inl inside ↦ rw inside (stay m xs put c l _ _ _ none refl refl refl tt)
        | inr past ↦ rw past (stay m xs put c l _ _ _ (some overran) refl refl refl tt)
      ]
  move-Next m (past_end node) call now xs put real c l mine k =
      stay m xs put c l m _ _ none refl refl refl tt
  move-Next m (pop_visit slot range p) call now xs put real c l mine k =
      pop_back m _ xs put c l refl refl slot range p _
        (visited (Exchange.move (m.slots slot) p now).1)
