-- ===== src/Stacks/Collector.antt =====
-- project3/GarbageCollector.cpp: threads put the nodes that they pop on a dirty list with a stamp,
-- and use them again once every registered thread has a later clock. One call at a time.
pub mod Safety
pub mod Leaving
mod Tests
use utd_cs6v81_spring.Base.{
  ℕ, zero, suc, ◌+◌, ◌*◌, ◌%◌, ◌^◌, ◌-◌, Bool, true, false, Option, none, some, List, [], ◌∷◌, ◌++◌,
  ltb, leb, ◌==◌, length, if◌then◌else◌,
}
use utd_cs6v81_spring.Base.Family.{update}

-- A node by its address, with its field `clock`.
pub record Stamped : Type 0 where
  pub node : ℕ
  pub clock : ℕ

-- GarbageCollector. The list holds the registered threads in the place of pointers to their clocks.
pub record Collector : Type 0 where
  pub clock : ℕ  -- uint64_t
  pub clocks : List ℕ
  pub clock_of : ℕ → ℕ  -- GCNode::clock of each thread
  pub total_allocs : ℕ

-- GCNode. The first of a list is its front.
pub record ThreadLists : Type 0 where
  pub thread : ℕ
  pub dirty : List Stamped
  pub clean : List Stamped
  pub allocs : ℕ

abbrev pub capacity : ℕ
capacity = 1024 * 1024

abbrev pub new_collector : Collector
new_collector = record { clock = 1; clocks = []; clock_of = λ _. 0; total_allocs = 0 }

-- `getclock`
unfoldable pub getclock : Collector → ℕ × Collector
getclock g = (g.clock, record g { clock = (g.clock + 1) % 2 ^ 64 })

-- The loop of `getminclock` over the rest of the list.
unfoldable pub min_from : (ℕ → ℕ) → List ℕ → ℕ → ℕ
min_from clock_of [] m = m
min_from clock_of (t ∷ ts) m = min_from clock_of ts (if ltb (clock_of t) m then clock_of t else m)

unfoldable pub getminclock : Collector → ℕ
unfolding min_from
getminclock g = min_from g.clock_of g.clocks 0xffffffffffffffff

-- `reg` for a new thread.
unfoldable pub reg : Collector → ℕ → Collector × ThreadLists
unfolding getclock
reg g t =
    let (now, g') = getclock g in
    (
      record g' { clock_of = update g'.clock_of t now; clocks = g'.clocks ++ (t ∷ []) },
      record { thread = t; dirty = []; clean = []; allocs = 0 },
    )

-- What the loop of `cleanup` leaves: the two lists, and the nodes deleted since the clean one was
-- full.
pub record Swept : Type 0 where
  pub dirty : List Stamped
  pub clean : List Stamped
  pub deleted : List Stamped

-- The body of the loop for one old node.
abbrev pub put_clean : Stamped → List Stamped → List Stamped → List Stamped × List Stamped
put_clean n clean deleted =
    if length clean == capacity then (clean, n ∷ deleted) else (n ∷ clean, deleted)

unfoldable pub sweep : ℕ → List Stamped → List Stamped → List Stamped → Swept
sweep minclock [] clean deleted = record { dirty = []; clean = clean; deleted = deleted }
sweep minclock (n ∷ dirty) clean deleted =
    let (clean', deleted') = put_clean n clean deleted in
    let rest = sweep minclock dirty clean' deleted' in
    if ltb n.clock minclock
    then rest
    else record { dirty = n ∷ dirty; clean = clean; deleted = deleted }

-- `cleanup`: the sweep, and a new clock for the thread.
unfoldable pub cleanup : Collector → ThreadLists → ℕ → Collector × ThreadLists × List Stamped
unfolding getclock
cleanup g l minclock =
    let s = sweep minclock l.dirty l.clean [] in
    let (now, g') = getclock g in
    (
      record g' { clock_of = update g'.clock_of l.thread now },
      record l { dirty = s.dirty; clean = s.clean },
      s.deleted,
    )

-- `clean`: the new state and what was deleted, or `none` where the program exits on a full dirty
-- list.
abbrev pub append_dirty :
    Stamped
    → Collector × ThreadLists × List Stamped
    → Option (Collector × ThreadLists × List Stamped)
append_dirty n (g, l, deleted) =
    if length l.dirty == capacity
    then none
    else some (g, record l { dirty = l.dirty ++ (n ∷ []) }, deleted)

unfoldable pub clean : Collector → ThreadLists → ℕ → Option (Collector × ThreadLists × List Stamped)
unfolding getclock
clean g l n =
    let (now, g') = getclock g in
    let g2 = record g' { clock_of = update g'.clock_of l.thread now } in
    let minclock = getminclock g2 in
    let stamped : Stamped = record { node = n; clock = now } in
    if now == minclock
    then some (g2, l, stamped ∷ [])
    else append_dirty stamped
        (if ltb 10 (length l.dirty) then cleanup g2 l minclock else (g2, l, []))

-- `alloc`: a node from the clean list, or a new one at the address that `new` gives.
abbrev pub alloc_from : ℕ → ThreadLists → List Stamped → ℕ × ThreadLists
alloc_from fresh l [] = (fresh, record l { allocs = l.allocs + 1 })
alloc_from fresh l (n ∷ rest) = (n.node, record l { clean = rest })

unfoldable pub alloc : ℕ → ThreadLists → ℕ × ThreadLists
alloc fresh l = alloc_from fresh l l.clean

-- The loop of `dereg`, with fuel; `none` if it has not ended by then.
unfoldable pub drain : ℕ → Collector → ThreadLists → Option (Collector × ThreadLists)
drain zero g l = none
drain (suc k) g l =
    let (g', l', deleted) = cleanup g l (getminclock g) in
    let rest = drain k g' l' in if length l.dirty == 0 then some (g, l) else rest

abbrev without : ℕ → List ℕ → List ℕ
without t [] = []
without t (u ∷ us) = if u == t then without t us else u ∷ without t us

unfoldable pub dereg : ℕ → Collector → ThreadLists → Option Collector
unfolding drain
dereg fuel g l = elim (drain fuel g l) [
  | none ↦ none
  | some (g', l') ↦ some (record g' {
    clocks = without l'.thread g'.clocks;
    total_allocs = (g'.total_allocs + l'.allocs) % 2 ^ 64;
  })
]

-- The destructor of GCNode: the nodes of the clean list that it deletes, from the front on, and the
-- lists that it leaves, on fuel.
unfoldable pub delete_clean : ℕ → ThreadLists → List Stamped × ThreadLists
delete_clean zero l = ([], l)
delete_clean (suc k) l = elim l.clean [
  | [] ↦ ([], l)
  | n ∷ rest ↦
      let (deleted, left) = delete_clean k (record l { clean = rest }) in (n ∷ deleted, left)
]
