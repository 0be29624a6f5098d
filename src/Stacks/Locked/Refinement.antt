-- ===== src/Stacks/Locked/Refinement.antt =====
-- The stack of project3/LockStack.cpp against a list.
use utd_cs6v81_spring.Base.{ℕ, zero, suc, ◌≤◌, ◌≡◌, ◌≢◌, refl, ap, List, [], ◌∷◌, length, arith}
use utd_cs6v81_spring.Stacks.Locked.{
  LockStack, new_stack, push, pop, delete_all, Call, push_node, pop_node, run,
}
use utd_cs6v81_spring.Stacks.LockFree.Invariant.{Chain, Avoids}
use utd_cs6v81_spring.Stacks.LockFree.Steps.{Chain-update}

-- The list after the calls, and what the calls of `pop` return.
abbrev pub run_list : List ℕ → List Call → List ℕ × List ℕ
run_list xs [] = (xs, [])
run_list xs (push_node a ∷ cs) = run_list (a ∷ xs) cs
run_list [] (pop_node ∷ cs) = let (ys, ns) = run_list [] cs in (ys, 0 ∷ ns)
run_list (x ∷ xs) (pop_node ∷ cs) = let (ys, ns) = run_list xs cs in (ys, x ∷ ns)

-- No call pushes NULL or a node that is on the stack.
abbrev pub Fresh : List ℕ → List Call → Type 0
Fresh xs [] = Unit
Fresh xs (push_node a ∷ cs) = (a ≢ 0) × Avoids a xs × Fresh (a ∷ xs) cs
Fresh [] (pop_node ∷ cs) = Fresh [] cs
Fresh (x ∷ xs) (pop_node ∷ cs) = Fresh xs cs

-- The nodes of the stack, from the top.
abbrev pub Holds : LockStack → List ℕ → Type 0
Holds s xs = Chain s.next s.head xs

push-Holds :
    (s : LockStack) (xs : List ℕ) (a : ℕ)
    → a ≢ 0
    → Avoids a xs
    → Holds s xs
    → Holds (push s a) (a ∷ xs)
unfolding push
push-Holds s xs a nonzero fresh c =
    let rest = Chain-update s.next a s.head s.head xs fresh c in
    (refl, nonzero, ground (arith, rest))

tail-Holds :
    (s : LockStack) (x : ℕ) (xs : List ℕ)
    → Holds s (x ∷ xs)
    → Holds (record s { head = s.next s.head }) xs
tail-Holds s x xs c = rw c.0 c.2

pop-empty : (s : LockStack) → Holds s [] → pop s ≡ (0, s)
unfolding pop
pop-empty s c = ground arith

pop-cons :
    (s : LockStack) (x : ℕ) (xs : List ℕ) → Holds s (x ∷ xs) → ((pop s).0 ≡ x) × Holds (pop s).1 xs
unfolding pop
pop-cons s x xs c = let rest = tail-Holds s x xs c in ground (arith, rest)

run_from :
    (s : LockStack) (xs : List ℕ) (cs : List Call)
    → Holds s xs
    → Fresh xs cs
    → ((run s cs).1 ≡ (run_list xs cs).1) × Holds (run s cs).0 (run_list xs cs).0
unfolding run
run_from s xs [] c f = (refl, c)
run_from s xs (push_node a ∷ cs) c f =
    run_from (push s a) (a ∷ xs) cs (push-Holds s xs a f.0 f.1 c) f.2
run_from s [] (pop_node ∷ cs) c f =
    let rest = run_from s [] cs c f in rw (pop-empty s c) (ap (λ ns. 0 ∷ ns) rest.0, rest.1)
run_from s (x ∷ xs) (pop_node ∷ cs) c f =
    let (node, tail) = pop-cons s x xs c in
    let (results, held) = run_from (pop s).1 xs cs tail f in (cc, held)

delete_all_from :
    (s : LockStack) (xs : List ℕ) (k : ℕ)
    → Holds s xs
    → length xs ≤ k
    → ((delete_all k s).0 ≡ xs) × ((delete_all k s).1.head ≡ 0)
unfolding delete_all
delete_all_from s [] zero c h = (refl, c)
delete_all_from s [] (suc k) c h = ground arith
delete_all_from s (x ∷ xs) zero c h = absurd (omega arith)
delete_all_from s (x ∷ xs) (suc k) c h =
    let (deleted, left) =
      delete_all_from (record s { head = s.next s.head }) xs k (tail-Holds s x xs c)
        (omega arith) in
    ground (arith, deleted, left)

-- From a new stack, calls that push neither NULL nor a node that is on the stack return what they
-- return on a list, and the memory then holds that list.
pub locked_refines :
    (memory : ℕ → ℕ) (cs : List Call)
    → Fresh [] cs
    → ((run (new_stack memory) cs).1 ≡ (run_list [] cs).1)
      × Holds (run (new_stack memory) cs).0 (run_list [] cs).0
unfolding new_stack
locked_refines memory cs f = run_from (record { head = 0; next = memory }) [] cs refl f

-- After such calls the loop of the destructor, given at least as many turns as nodes are left, ends
-- with the stack empty, and it has deleted the nodes that the list still has, each once, from the
-- top.
destructor_frees :
    (memory : ℕ → ℕ) (cs : List Call) (k : ℕ)
    → Fresh [] cs
    → length (run_list [] cs).0 ≤ k
    → let (deleted, left) = delete_all k (run (new_stack memory) cs).0 in
      (deleted ≡ (run_list [] cs).0) × (left.head ≡ 0)
destructor_frees memory cs k f enough =
    delete_all_from (run (new_stack memory) cs).0 (run_list [] cs).0 k
      (locked_refines memory cs f).1 enough
