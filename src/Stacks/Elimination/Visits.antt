-- ===== src/Stacks/Elimination/Visits.antt =====
-- A step of a thread that visits the array, in terms of the step in its exchanger.
use mathlib.Core.Path.{subst}
use mathlib.Core.Logic.{ite}
use utd_cs6v81_spring.Base.{
  ℕ, ◌+◌, ◌%◌, ◌≤◌, ◌<◌, ◌≡◌, ◌≢◌, refl, ap, sym, Option, none, some, ◌==◌, Bool-cases, inl, inr,
  arith, ℕ_discrete,
}
use utd_cs6v81_spring.Base.Family.{update, tally-update}
use utd_cs6v81_spring.Exchange
use utd_cs6v81_spring.Exchange.{
  entering, checking, reading, offering, taking, watching, looking, withdrawing, collecting,
  clearing, returned, timed_out,
}
use utd_cs6v81_spring.Exchange.Visit.{visited}
use utd_cs6v81_spring.Exchange.Steps
use utd_cs6v81_spring.Exchange.Steps.{one_if, owns, occupied, holds, slot_holds, IsWord}
use utd_cs6v81_spring.Stacks.Elimination.{
  Pc, idle, push_read, push_visit, pop_read, pop_visit, Event, push_on, pop_on, push_link,
  push_swap, push_draw, pop_test, pop_next, pop_swap, pop_draw, past_end,
}
use utd_cs6v81_spring.Stacks.Elimination.Kept.{places, owns_at, hands, Knows, arrives, leaves, Kept}

-- A visit that has ended gives the node that the thread held last.
data Visited (p : Exchange.Pc) (o : Option ℕ) : Type 0 where
  inside : o ≡ none → Visited p o
  ended :
      (item : ℕ)
      → o ≡ some item
      → owns p ≡ 0
      → ((v : ℕ) → holds v p ≡ one_if (item == v))
      → ((w : ℕ) → Steps.Knows w p → item % 4 ≡ 0)
      → Visited p o

visited-Visited : (p : Exchange.Pc) → Visited p (visited p)
visited-Visited (entering n) = inside refl
visited-Visited (checking n bound) = inside refl
visited-Visited (reading n bound current) = inside refl
visited-Visited (offering n bound current item) = inside refl
visited-Visited (taking n bound item) = inside refl
visited-Visited (watching n bound) = inside refl
visited-Visited (looking n bound current) = inside refl
visited-Visited (withdrawing n) = inside refl
visited-Visited (collecting n) = inside refl
visited-Visited (clearing item) = inside refl
visited-Visited (returned item) = ended item refl refl (λ v. refl) (λ w k. k)
visited-Visited (timed_out n) = ended n refl refl (λ v. refl) (λ w k. k)

-- How the place after a visit's step stands to the place in the exchanger.
pub record After (slot : ℕ) (p : Exchange.Pc) (q : Pc) (e : Option Event) : Type 0 where
  owned : (j : ℕ) → owns_at j q ≡ ite (ℕ_discrete slot j) (owns p) 0
  held : (v : ℕ) → v ≢ 0 → hands v q + leaves v e ≡ holds v p
  none_new : (v : ℕ) → arrives v e ≡ 0
  known : (slots : ℕ → ℕ) → slot < places → Steps.Knows (slots slot) p → Knows slots q

ite_zero : (slot j n : ℕ) → n ≡ 0 → 0 ≡ ite (ℕ_discrete slot j) n 0
ite_zero slot j n e = elim (ℕ_discrete slot j) as (λ d. 0 ≡ ite d n 0) [
  | yes same ↦ omega (arith, e)
  | no apart ↦ refl
]

pub push_on-After :
    (slot range : ℕ) (p : Exchange.Pc)
    → After slot p (push_on slot range p (visited p)).0 (push_on slot range p (visited p)).1
push_on-After slot range p = elim (visited-Visited p) [
  | inside e ↦ rw e record {
    owned = λ j. refl;
    held = λ v _. omega arith;
    none_new = λ v. refl;
    known = λ slots b k. (b, k);
  }
  | ended item e o h a ↦ rw e (elim (Bool-cases (item == 0)) [
    | inl zero ↦ rw zero record {
      owned = λ j. ite_zero slot j (owns p) o;
      held = λ v nz. ground (arith, h v, nz, zero);
      none_new = λ v. refl;
      known = λ slots b k. tt;
    }
    | inr node ↦ rw node record {
      owned = λ j. ite_zero slot j (owns p) o;
      held = λ v nz. omega (arith, h v);
      none_new = λ v. refl;
      known = λ slots b k. a (slots slot) k;
    }
  ])
]

pub pop_on-After :
    (slot range : ℕ) (p : Exchange.Pc)
    → After slot p (pop_on slot range p (visited p)).0 (pop_on slot range p (visited p)).1
pop_on-After slot range p = elim (visited-Visited p) [
  | inside e ↦ rw e record {
    owned = λ j. refl;
    held = λ v _. omega arith;
    none_new = λ v. refl;
    known = λ slots b k. (b, k);
  }
  | ended item e o h a ↦ rw e (elim (Bool-cases (item == 0)) [
    | inl zero ↦ rw zero record {
      owned = λ j. ite_zero slot j (owns p) o;
      held = λ v nz. ground (arith, h v, nz, zero);
      none_new = λ v. refl;
      known = λ slots b k. tt;
    }
    | inr node ↦ rw node record {
      owned = λ j. ite_zero slot j (owns p) o;
      held = λ v nz. omega (arith, h v);
      none_new = λ v. refl;
      known = λ slots b k. tt;
    }
  ])
]

ite_self : (slot n : ℕ) → ite (ℕ_discrete slot slot) n 0 ≡ n
ite_self slot n = elim (ℕ_discrete slot slot) as (λ d. ite d n 0 ≡ n) [
  | yes same ↦ refl
  | no apart ↦ absurd (apart refl)
]

module _ (slots : ℕ → ℕ) (slot w' : ℕ) (p p' : Exchange.Pc) (b : slot < places)
    (kept : Steps.Kept (slots slot) p w' p') where
  -- What a thread in an exchanger knows stays so, whichever exchanger the step was in.
  Knows-visit :
      (other : ℕ) (q : Exchange.Pc)
      → owns p + ite (ℕ_discrete other slot) (owns q) 0 ≤ occupied (slots slot)
      → Steps.Knows (slots other) q
      → Steps.Knows (update slots slot w' other) q
  Knows-visit other q few k =
      elim (ℕ_discrete slot other) as (λ d. Steps.Knows (ite d w' (slots other)) q) [
        | yes same ↦
            let here : owns p + ite (ℕ_discrete slot slot) (owns q) 0 ≤ occupied (slots slot) =
              subst (λ t. owns p + ite (ℕ_discrete t slot) (owns q) 0 ≤ occupied (slots slot))
                (sym same) few in
            kept.others q (omega (arith, here, ite_self slot (owns q)))
              (subst (λ t. Steps.Knows (slots t) q) (sym same) k)
        | no apart ↦ k
      ]

  Knows-other :
      (q : Pc)
      → owns p + owns_at slot q ≤ occupied (slots slot)
      → Knows slots q
      → Knows (update slots slot w') q
  Knows-other idle few k = k
  Knows-other (push_read node range) few k = k
  Knows-other (push_link node n range) few k = k
  Knows-other (push_swap node n range) few k = k
  Knows-other (push_draw node range) few k = k
  Knows-other (push_visit other range q) few k = (k.0, Knows-visit other q few k.1)
  Knows-other pop_test few k = k
  Knows-other (pop_read range) few k = k
  Knows-other (pop_next n range) few k = k
  Knows-other (pop_swap n m range) few k = k
  Knows-other (pop_draw range) few k = k
  Knows-other (pop_visit other range q) few k = (k.0, Knows-visit other q few k.1)
  Knows-other (past_end node) few k = k

  pub visit-Kept :
      (x x' : Pc) (e : Option Event)
      → ((j : ℕ) → IsWord (slots j))
      → ((j : ℕ) → owns_at j x ≡ ite (ℕ_discrete slot j) (owns p) 0)
      → ((v : ℕ) → hands v x ≡ holds v p)
      → After slot p' x' e
      → Kept slots x (update slots slot w') x' e
  visit-Kept x x' e words owned held after = record {
    words = λ j. elim (ℕ_discrete slot j) as (λ d. IsWord (ite d w' (slots j))) [
      | yes same ↦ kept.is_word
      | no apart ↦ words j
    ];
    knows =
        after.known (update slots slot w') b
          (elim (ℕ_discrete slot slot) as (λ d. Steps.Knows (ite d w' (slots slot)) p') [
            | yes same ↦ kept.knows
            | no apart ↦ absurd (apart refl)
          ]);
    others = λ q few known.
        Knows-other q (omega (arith, few slot, owned slot, ite_self slot (owns p))) known;
    owner = λ j.
        rw (after.owned j, owned j)
          (elim (ℕ_discrete slot j)
            as (λ d.
              ite d (owns p') 0 + occupied (slots j)
              ≡ ite d (owns p) 0 + occupied (ite d w' (slots j))) [
                | yes same ↦ omega (arith, kept.owner, ap (λ t. occupied (slots t)) same)
                | no apart ↦ refl
              ]);
    nodes = λ v nz. omega (
      arith,
      tally-update (slot_holds v) places slots slot w' b,
      kept.nodes v,
      held v,
      after.held v nz,
      after.none_new v,
    );
  }
