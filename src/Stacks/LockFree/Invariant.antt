-- ===== src/Stacks/LockFree/Invariant.antt =====
-- The list that the memory holds, and what keeps it a list while threads hold old pointers into it.
use utd_cs6v81_spring.Base.{ℕ, ◌≡◌, ◌≢◌, Bool, true, List, [], ◌∷◌}
use utd_cs6v81_spring.Stacks.LockFree.{
  Memory, Pc, push_read, push_link, push_swap, push_wait, pop_next, pop_swap,
}

-- The nodes from `p` on.
abbrev pub Chain : (ℕ → ℕ) → ℕ → List ℕ → Type 0
Chain next p [] = p ≡ 0
Chain next p (x ∷ xs) = (p ≡ x) × (x ≢ 0) × Chain next (next x) xs

abbrev pub Avoids : ℕ → List ℕ → Type 0
Avoids a [] = Unit
Avoids a (x ∷ xs) = (x ≢ a) × Avoids a xs

abbrev pub AllAllocated : (ℕ → Bool) → List ℕ → Type 0
AllAllocated al [] = Unit
AllAllocated al (x ∷ xs) = (al x ≡ true) × AllAllocated al xs

-- The node that a push has not yet linked in, or 0.
abbrev pub private_node : Pc → ℕ
private_node (push_read a) = a
private_node (push_link a n) = a
private_node (push_swap a n) = a
private_node (push_wait a) = a
private_node _ = 0

-- The node that a pop has read, or 0.
abbrev pub held_node : Pc → ℕ
held_node (pop_next n) = n
held_node (pop_swap n k) = n
held_node _ = 0

-- What a thread knows of the memory.
abbrev pub Knows : Memory → Pc → Type 0
Knows m (push_read a) = (a ≢ 0) × (m.allocated a ≡ true)
Knows m (push_link a n) = (a ≢ 0) × (m.allocated a ≡ true)
Knows m (push_swap a n) = (a ≢ 0) × (m.allocated a ≡ true) × (m.next a ≡ n)
Knows m (push_wait a) = (a ≢ 0) × (m.allocated a ≡ true)
Knows m (pop_next n) = (n ≢ 0) × (m.allocated n ≡ true)
Knows m (pop_swap n k) = (n ≢ 0) × (m.allocated n ≡ true) × (m.next n ≡ k)
Knows m _ = Unit

pub record Inv (m : Memory) (pc : ℕ → Pc) (xs : List ℕ) : Type 0 where
  pub chain : Chain m.next m.top xs
  pub known : AllAllocated m.allocated xs
  pub knows : (i : ℕ) → Knows m (pc i)
  pub apart :
      (i j : ℕ) → private_node (pc i) ≢ 0 → private_node (pc i) ≡ private_node (pc j) → i ≡ j
  pub unlinked : (i : ℕ) → Avoids (private_node (pc i)) xs
  pub linked : (i j : ℕ) → held_node (pc i) ≢ 0 → held_node (pc i) ≢ private_node (pc j)
