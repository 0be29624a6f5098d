-- ===== src/Stacks/LockFree/Steps.antt =====
-- One lemma for each kind of step: what the list becomes, and that the invariant is kept.
use utd_cs6v81_spring.Base.{ℕ, ◌≡◌, ◌≢◌, refl, Bool, true, false, List, [], ◌∷◌, arith}
use utd_cs6v81_spring.Base.Family.{update}
use utd_cs6v81_spring.Stacks.LockFree.{Memory, Pc, idle, push_read, push_link, push_swap, pop_swap}
use utd_cs6v81_spring.Stacks.LockFree.Invariant.{
  Chain, Avoids, AllAllocated, private_node, held_node, Knows, Inv,
}

pub Chain-update :
    (next : ℕ → ℕ) (a v p : ℕ) (xs : List ℕ)
    → Avoids a xs
    → Chain next p xs
    → Chain (update next a v) p xs
Chain-update next a v p [] h c = c
Chain-update next a v p (x ∷ xs) h c =
    let rest = Chain-update next a v (next x) xs h.1 c.2 in ground (arith, rest)

AllAllocated-update :
    (al : ℕ → Bool) (a : ℕ) (xs : List ℕ) → AllAllocated al xs → AllAllocated (update al a true) xs
AllAllocated-update al a [] h = tt
AllAllocated-update al a (x ∷ xs) h =
    let rest = AllAllocated-update al a xs h.1 in ground (arith, rest)

-- A node that is not allocated is not in the list.
Avoids-unallocated :
    (al : ℕ → Bool) (a : ℕ) (xs : List ℕ) → AllAllocated al xs → al a ≡ false → Avoids a xs
Avoids-unallocated al a [] h e = tt
Avoids-unallocated al a (x ∷ xs) h e =
    let rest = Avoids-unallocated al a xs h.1 e in ((λ q. ground arith), rest)

Chain-nonzero : (next : ℕ → ℕ) (p : ℕ) (xs : List ℕ) → Chain next p xs → Avoids 0 xs
Chain-nonzero next p [] c = tt
Chain-nonzero next p (x ∷ xs) c = (c.1, Chain-nonzero next (next x) xs c.2)

module _ {m : Memory} {pc : ℕ → Pc} {xs : List ℕ} (inv : Inv m pc xs) (i : ℕ) where
  open inv use {chain, known, knows, apart, unlinked, linked}

  -- The thread moves and the memory stays.
  pub stay_Inv :
      (p : Pc)
      → Knows m p
      → private_node p ≡ private_node (pc i)
      → (held_node p ≢ 0 → (j : ℕ) → held_node p ≢ private_node (pc j))
      → Inv m (update pc i p) xs
  stay_Inv p k same apart_held = record {
    chain = chain;
    known = known;
    knows = λ j. ground (arith, knows j);
    apart = λ a b h q. ground (arith, apart a b);
    unlinked = λ j. ground (arith, unlinked j, unlinked i);
    linked = λ a b h. ground (
      arith,
      linked a b,
      linked a i,
      λ (g : held_node p ≢ 0). apart_held g b,
      λ (g : held_node p ≢ 0). apart_held g i,
    );
  }

  -- `new` gives an address that no thread and no list knows.
  pub new_Inv :
      (a : ℕ)
      → pc i ≡ idle
      → a ≢ 0
      → m.allocated a ≡ false
      → Inv (record m { allocated = update m.allocated a true }) (update pc i (push_read a)) xs
  new_Inv a e nonzero unused =
      let fresh_for = Avoids-unallocated m.allocated a xs known unused in
      record {
        chain = chain;
        known = AllAllocated-update m.allocated a xs known;
        knows = λ j. ground (arith, knows j);
        apart = λ b c h q. ground (arith, apart b c, knows b, knows c);
        unlinked = λ j. ground (arith, unlinked j, fresh_for);
        linked = λ b c h. ground (arith, linked b c, knows b);
      }

  -- `node->next = n` writes a node that only this thread has.
  pub link_Inv :
      (a n : ℕ)
      → pc i ≡ push_link a n
      → Inv (record m { next = update m.next a n }) (update pc i (push_swap a n)) xs
  link_Inv a n e =
      let mine : Avoids a xs = ground (arith, unlinked i) in
      record {
        chain = Chain-update m.next a n m.top xs mine chain;
        known = known;
        knows = λ j. ground (arith, knows j, knows i, apart i j, linked j i);
        apart = λ b c h q. ground (arith, apart b c);
        unlinked = λ j. ground (arith, unlinked j, unlinked i);
        linked = λ b c h. ground (arith, linked b c, linked b i);
      }

  -- A push whose compare and swap finds the top it had read.
  pub push_Inv :
      (a n : ℕ)
      → pc i ≡ push_swap a n
      → m.top ≡ n
      → Inv (record m { top = a }) (update pc i idle) (a ∷ xs)
  push_Inv a n e same = record {
    chain = ground (arith, knows i, chain);
    known = ground (arith, knows i, known);
    knows = λ j. ground (arith, knows j);
    apart = λ b c h q. ground (arith, apart b c);
    unlinked =
        λ j. ground (arith, unlinked j, apart i j, knows i, Chain-nonzero m.next m.top xs chain);
    linked = λ b c h. ground (arith, linked b c);
  }

module _ {m : Memory} {pc : ℕ → Pc} (i : ℕ) where
  -- A pop whose compare and swap finds the top it had read: it was the head of the list, and its
  -- successor is the one that was read, since no one writes a node that has been in the list.
  pub pop_Inv :
      (xs : List ℕ) (n k : ℕ)
      → Inv m pc xs
      → pc i ≡ pop_swap n k
      → m.top ≡ n
      → (ys : List ℕ) × (xs ≡ n ∷ ys) × Inv (record m { top = k }) (update pc i idle) ys
  pop_Inv [] n k inv e same = absurd (ground (arith, inv.knows i, inv.chain))
  pop_Inv (x ∷ ys) n k inv e same = (
    ys,
    ground (arith, inv.chain),
    record {
      chain = ground (arith, inv.chain, inv.knows i);
      known = inv.known.1;
      knows = λ j. ground (arith, inv.knows j);
      apart = λ b c h q. ground (arith, inv.apart b c);
      unlinked = λ j. ground (arith, inv.unlinked j, Chain-nonzero m.next m.top (x ∷ ys) inv.chain);
      linked = λ b c h. ground (arith, inv.linked b c);
    },
  )

  -- What `head->next` gives a pop: NULL on the empty list only, and a node that is in the list.
  pub top_zero : (xs : List ℕ) → Inv m pc xs → m.top ≡ 0 → xs ≡ []
  top_zero [] inv e = refl
  top_zero (x ∷ ys) inv e = absurd (inv.chain.1 (ground (arith, inv.chain)))

  pub top_known :
      (xs : List ℕ)
      → Inv m pc xs
      → m.top ≢ 0
      → (m.allocated m.top ≡ true) × ((j : ℕ) → m.top ≢ private_node (pc j))
  top_known [] inv ne = absurd (ne inv.chain)
  top_known (x ∷ ys) inv ne =
      (ground (arith, inv.chain, inv.known), λ j. ground (arith, inv.chain, inv.unlinked j))
