-- ===== src/Stacks/Elimination/Kept.antt =====
-- What a step of the elimination stack keeps, and the steps that no exchanger takes part in.
use mathlib.Core.Logic.{ite}
use utd_cs6v81_spring.Base.{ℕ, ◌+◌, ◌%◌, ◌≤◌, ◌<◌, ◌≡◌, ◌≢◌, ◌==◌, Option, some, arith, ℕ_discrete}
use utd_cs6v81_spring.Base.Family.{tally}
use utd_cs6v81_spring.Exchange.Steps
use utd_cs6v81_spring.Exchange.Steps.{one_if, owns, occupied, holds, slot_holds, IsWord}
use utd_cs6v81_spring.Stacks.Elimination.{
  Pc, push_read, push_link, push_swap, push_draw, push_visit, pop_visit, past_end, Event, called,
  pushed, eliminated, maxrange,
}

-- The number of exchangers in the array.
abbrev pub places : ℕ
places = maxrange

-- Whether the thread owns the exchanger `j`.
abbrev pub owns_at : ℕ → Pc → ℕ
owns_at j (push_visit slot range p) = ite (ℕ_discrete slot j) (owns p) 0
owns_at j (pop_visit slot range p) = ite (ℕ_discrete slot j) (owns p) 0
owns_at j p = 0

-- How often the thread has the node `v` that a push was called with and that is not on the list.
abbrev pub hands : ℕ → Pc → ℕ
hands v (push_read node range) = one_if (node == v)
hands v (push_link node n range) = one_if (node == v)
hands v (push_swap node n range) = one_if (node == v)
hands v (push_draw node range) = one_if (node == v)
hands v (push_visit slot range p) = holds v p
hands v (pop_visit slot range p) = holds v p
hands v (past_end node) = one_if (node == v)
hands v p = 0

abbrev pub Knows : (ℕ → ℕ) → Pc → Type 0
Knows slots (push_read node range) = node % 4 ≡ 0
Knows slots (push_link node n range) = node % 4 ≡ 0
Knows slots (push_swap node n range) = node % 4 ≡ 0
Knows slots (push_draw node range) = node % 4 ≡ 0
Knows slots (push_visit slot range p) = (slot < places) × Steps.Knows (slots slot) p
Knows slots (pop_visit slot range p) = (slot < places) × Steps.Knows (slots slot) p
Knows slots (past_end node) = node % 4 ≡ 0
Knows slots p = Unit

-- The nodes that a step brings to the threads, and those that it puts on the list or returns.
abbrev pub arrives : ℕ → Option Event → ℕ
arrives v (some (called node)) = one_if (node == v)
arrives v e = 0

abbrev pub leaves : ℕ → Option Event → ℕ
leaves v (some (pushed node)) = one_if (node == v)
leaves v (some (eliminated node)) = one_if (node == v)
leaves v e = 0

abbrev pub slots_hold : ℕ → (ℕ → ℕ) → ℕ
slots_hold v slots = tally (slot_holds v) places slots

pub record Kept (slots : ℕ → ℕ) (p : Pc) (slots' : ℕ → ℕ) (p' : Pc) (e : Option Event)
    : Type 0 where
  pub words : (j : ℕ) → IsWord (slots' j)
  pub knows : Knows slots' p'
  pub others :
      (q : Pc)
      → ((j : ℕ) → owns_at j p + owns_at j q ≤ occupied (slots j))
      → Knows slots q
      → Knows slots' q
  pub owner : (j : ℕ) → owns_at j p' + occupied (slots j) ≡ owns_at j p + occupied (slots' j)
  pub nodes :
      (v : ℕ)
      → v ≢ 0
      → slots_hold v slots' + hands v p' + leaves v e ≡ slots_hold v slots + hands v p + arrives v e

module _ (slots : ℕ → ℕ) (words : (j : ℕ) → IsWord (slots j)) where
  -- A step that leaves the exchangers alone.
  pub stay :
      (p p' : Pc) (e : Option Event)
      → Knows slots p'
      → ((j : ℕ) → owns_at j p' ≡ owns_at j p)
      → ((v : ℕ) → v ≢ 0 → hands v p' + leaves v e ≡ hands v p + arrives v e)
      → Kept slots p slots p' e
  stay p p' e k same n = record {
    words = words;
    knows = k;
    others = λ q few known. known;
    owner = λ j. omega (arith, same j);
    nodes = λ v nz. omega (arith, n v nz);
  }
