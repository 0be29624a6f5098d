-- ===== src/Stacks/Locked.antt =====
-- project3/LockStack.cpp: the stack under a mutex. A node is its address, and 0 is NULL. Each call
-- holds the mutex from its first access to its last, so a call is one step.
pub mod Refinement
mod Tests
use utd_cs6v81_spring.Base.{ℕ, zero, suc, List, [], ◌∷◌, ◌==◌, if◌then◌else◌}
use utd_cs6v81_spring.Base.Family.{update}

pub record LockStack : Type 0 where
  pub head : ℕ
  pub next : ℕ → ℕ

-- On the memory that the constructor finds.
unfoldable pub new_stack : (ℕ → ℕ) → LockStack
new_stack next = record { head = 0; next = next }

unfoldable pub push : LockStack → ℕ → LockStack
push s node = record { head = node; next = update s.next node s.head }

-- The node, or NULL.
unfoldable pub pop : LockStack → ℕ × LockStack
pop s = if s.head == 0 then (0, s) else (s.head, record s { head = s.next s.head })

-- The loop of the destructor, on fuel: the nodes it deletes, in order, and what it leaves. A node's
-- field `next` is read before the node is deleted.
unfoldable pub delete_all : ℕ → LockStack → List ℕ × LockStack
delete_all zero s = ([], s)
delete_all (suc k) s =
    let (ns, t) = delete_all k (record s { head = s.next s.head }) in
    if s.head == 0 then ([], s) else (s.head ∷ ns, t)

-- What the threads call, in the order in which they get the mutex.
pub data Call : Type 0 where
  push_node : ℕ → Call
  pop_node : Call

-- The stack after the calls, and what the calls of `pop` return.
unfoldable pub run : LockStack → List Call → LockStack × List ℕ
unfolding push pop
run s [] = (s, [])
run s (push_node a ∷ cs) = run (push s a) cs
run s (pop_node ∷ cs) = let (n, t) = pop s in let (u, ns) = run t cs in (u, n ∷ ns)
