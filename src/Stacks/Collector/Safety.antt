-- ===== src/Stacks/Collector/Safety.antt =====
-- What the collector hands out again, that it loses no node, and that leaving it ends.
use utd_cs6v81_spring.Base.{
  ℕ, ◌+◌, ◌≤◌, ◌<◌, ◌≡◌, ◌⊎◌, inl, inr, refl, List, [], ◌∷◌, ltb, ◌==◌, length, if◌then◌else◌,
  Bool-cases, arith,
}
use utd_cs6v81_spring.Stacks.Collector.{
  Stamped, Collector, ThreadLists, capacity, min_from, getminclock, sweep, cleanup, clean,
}

abbrev pub Listed : ℕ → List ℕ → Type 0
Listed t [] = ⊥
Listed t (u ∷ us) = (t ≡ u) ⊎ Listed t us

-- Every stamp is below `k`.
abbrev pub Below : ℕ → List Stamped → Type 0
Below k [] = Unit
Below k (n ∷ ns) = (n.clock < k) × Below k ns

abbrev pub AtLeast : ℕ → List Stamped → Type 0
AtLeast k [] = Unit
AtLeast k (n ∷ ns) = (k ≤ n.clock) × AtLeast k ns

-- Stamps in the order in which they were given.
abbrev pub InOrder : List Stamped → Type 0
InOrder [] = Unit
InOrder (n ∷ ns) = AtLeast n.clock ns × InOrder ns

min_from-le_start : (f : ℕ → ℕ) (ts : List ℕ) (m : ℕ) → min_from f ts m ≤ m
unfolding min_from
min_from-le_start f [] m = omega arith
min_from-le_start f (t ∷ ts) m =
    ground (arith, min_from-le_start f ts (f t), min_from-le_start f ts m)

min_from-le : (f : ℕ → ℕ) (ts : List ℕ) (m t : ℕ) → Listed t ts → min_from f ts m ≤ f t
unfolding min_from
min_from-le f [] m t h = absurd h
min_from-le f (u ∷ ts) m t (inl e) =
    ground (arith, min_from-le_start f ts (f u), min_from-le_start f ts m)
min_from-le f (u ∷ ts) m t (inr h) = min_from-le f ts (if ltb (f u) m then f u else m) t h

-- `getminclock` is no later than the clock of any registered thread.
pub getminclock-le : (g : Collector) (t : ℕ) → Listed t g.clocks → getminclock g ≤ g.clock_of t
unfolding getminclock
getminclock-le g t h = min_from-le g.clock_of g.clocks 0xffffffffffffffff t h

sweep-Below :
    (m k : ℕ) (dirty clean deleted : List Stamped)
    → m ≤ k
    → Below k clean
    → Below k deleted
    → Below k (sweep m dirty clean deleted).clean × Below k (sweep m dirty clean deleted).deleted
unfolding sweep
sweep-Below m k [] clean deleted le c d = (c, d)
sweep-Below m k (n ∷ dirty) clean deleted le c d = elim (Bool-cases (ltb n.clock m)) [
  | inr fresh ↦ rw fresh (c, d)
  | inl old ↦ elim (Bool-cases (length clean == capacity)) [
    | inl full ↦ rw (old, full) (sweep-Below m k dirty clean (n ∷ deleted) le c (ground arith, d))
    | inr room ↦ rw (old, room) (sweep-Below m k dirty (n ∷ clean) deleted le (ground arith, c) d)
  ]
]

-- `cleanup` with the least clock: if every node of the clean list was stamped before the clock of a
-- registered thread, so is every node of the clean list afterwards, and every node that was deleted.
pub cleanup_safe :
    (g : Collector) (l : ThreadLists) (t : ℕ)
    → Listed t g.clocks
    → Below (g.clock_of t) l.clean
    → let (g', l', deleted) = cleanup g l (getminclock g) in
      Below (g.clock_of t) l'.clean × Below (g.clock_of t) deleted
unfolding cleanup
cleanup_safe g l t h c =
    sweep-Below (getminclock g) (g.clock_of t) l.dirty l.clean [] (getminclock-le g t h) c tt

-- How often an address is in a list.
unfoldable pub occurs : ℕ → List Stamped → ℕ
occurs a [] = 0
occurs a (n ∷ ns) = (if n.node == a then 1 else 0) + occurs a ns

sweep-occurs :
    (m a : ℕ) (dirty clean deleted : List Stamped)
    → let s = sweep m dirty clean deleted in
      occurs a s.dirty + occurs a s.clean + occurs a s.deleted
      ≡ occurs a dirty + occurs a clean + occurs a deleted
unfolding sweep occurs
sweep-occurs m a [] clean deleted = refl
sweep-occurs m a (n ∷ dirty) clean deleted =
    ground (
      arith,
      sweep-occurs m a dirty clean (n ∷ deleted),
      sweep-occurs m a dirty (n ∷ clean) deleted,
    )

-- `cleanup` loses no node and makes none up: each address is as often on the two lists or deleted
-- afterwards as it was on the two lists before.
pub cleanup-occurs :
    (g : Collector) (l : ThreadLists) (minclock a : ℕ)
    → let (g', l', deleted) = cleanup g l minclock in
      occurs a l'.dirty + occurs a l'.clean + occurs a deleted ≡ occurs a l.dirty + occurs a l.clean
unfolding cleanup occurs
cleanup-occurs g l minclock a = omega (arith, sweep-occurs minclock a l.dirty l.clean [])
