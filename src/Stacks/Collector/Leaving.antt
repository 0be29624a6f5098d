-- ===== src/Stacks/Collector/Leaving.antt =====
-- The order of the dirty list, and the end of the loop in `dereg`.
use utd_cs6v81_spring.Base.{
  ℕ, suc, ◌≤◌, ◌<◌, ◌≡◌, refl, true, Option, none, some, List, [], ◌∷◌, ltb, ◌==◌, length,
  Bool-cases, inl, inr, arith,
}
use utd_cs6v81_spring.Stacks.Collector.{
  Stamped, Collector, ThreadLists, getminclock, put_clean, sweep, cleanup, drain,
}
use utd_cs6v81_spring.Stacks.Collector.Safety.{Below, AtLeast, InOrder}

AtLeast-weaken : (j k : ℕ) (ns : List Stamped) → j ≤ k → AtLeast k ns → AtLeast j ns
AtLeast-weaken j k [] h a = tt
AtLeast-weaken j k (n ∷ ns) h a = (omega arith, AtLeast-weaken j k ns h a.1)

-- If the dirty list is in the order of its stamps, the loop of `cleanup` leaves on it just nodes
-- whose stamp is not before the least clock, still in order.
sweep-InOrder :
    (m : ℕ) (dirty clean deleted : List Stamped)
    → InOrder dirty
    → AtLeast m (sweep m dirty clean deleted).dirty × InOrder (sweep m dirty clean deleted).dirty
unfolding sweep
sweep-InOrder m [] clean deleted h = (tt, tt)
sweep-InOrder m (n ∷ dirty) clean deleted h = elim (Bool-cases (ltb n.clock m)) [
  | inr fresh ↦ rw fresh ((ground arith, AtLeast-weaken m n.clock dirty (ground arith) h.0), h)
  | inl old ↦
      rw old (sweep-InOrder m dirty (put_clean n clean deleted).0 (put_clean n clean deleted).1 h.1)
]

sweep-dirty_Below :
    (m k : ℕ) (dirty clean deleted : List Stamped)
    → Below k dirty
    → Below k (sweep m dirty clean deleted).dirty
unfolding sweep
sweep-dirty_Below m k [] clean deleted b = tt
sweep-dirty_Below m k (n ∷ dirty) clean deleted b = elim (Bool-cases (ltb n.clock m)) [
  | inr fresh ↦ rw fresh b
  | inl old ↦
      rw old (
        sweep-dirty_Below m k dirty (put_clean n clean deleted).0 (put_clean n clean deleted).1 b.1)
]

sweep_all :
    (m : ℕ) (dirty clean deleted : List Stamped)
    → Below m dirty
    → (sweep m dirty clean deleted).dirty ≡ []
unfolding sweep
sweep_all m [] clean deleted b = refl
sweep_all m (n ∷ dirty) clean deleted b = elim (Bool-cases (ltb n.clock m)) [
  | inr fresh ↦ absurd (ground arith)
  | inl old ↦
      rw old (sweep_all m dirty (put_clean n clean deleted).0 (put_clean n clean deleted).1 b.1)
]

-- What `drain` gives where it ends, with an empty dirty list.
abbrev pub Drained : Option (Collector × ThreadLists) → Type 0
Drained none = ⊥
Drained (some (g, l)) = l.dirty ≡ []

empty_of : (ns : List Stamped) → (length ns == 0) ≡ true → ns ≡ []
empty_of [] h = refl
empty_of (n ∷ ns) h = absurd (ground arith)

drain_done : (k : ℕ) (g : Collector) (l : ThreadLists) → l.dirty ≡ [] → Drained (drain (suc k) g l)
unfolding drain
drain_done k g l e = ground (arith, e)

drain_more :
    (k : ℕ) (g : Collector) (l : ThreadLists)
    → Drained (drain k (cleanup g l (getminclock g)).0 (cleanup g l (getminclock g)).1)
    → Drained (drain (suc k) g l)
unfolding drain
drain_more k g l d = elim (Bool-cases (length l.dirty == 0)) [
  | inl empty ↦ rw empty (empty_of l.dirty empty)
  | inr more ↦ rw more d
]

-- The least clock where one thread is registered.
own_clock :
    (g : Collector) (t : ℕ)
    → g.clocks ≡ t ∷ []
    → g.clock_of t < 0xffffffffffffffff
    → getminclock g ≡ g.clock_of t
unfolding getminclock
own_clock g t e h = rw e (ground arith)

second_round :
    (g : Collector) (l : ThreadLists)
    → g.clocks ≡ l.thread ∷ []
    → g.clock_of l.thread < 0xffffffffffffffff
    → Below (g.clock_of l.thread) l.dirty
    → (cleanup g l (getminclock g)).1.dirty ≡ []
unfolding cleanup
second_round g l e h b =
    rw (own_clock g l.thread e h) (sweep_all (g.clock_of l.thread) l.dirty l.clean [] b)

first_round :
    (g : Collector) (l : ThreadLists) (m : ℕ)
    → Below g.clock l.dirty
    → let (g', l', deleted) = cleanup g l m in
      (g'.clock_of l'.thread ≡ g.clock) × Below (g'.clock_of l'.thread) l'.dirty
unfolding cleanup
first_round g l m b =
    let kept = sweep-dirty_Below m g.clock l.dirty l.clean [] b in
    (ground arith, ground (arith, kept))

first_clocks :
    (g : Collector) (l : ThreadLists) (m : ℕ)
    → g.clocks ≡ l.thread ∷ []
    → (cleanup g l m).0.clocks ≡ (cleanup g l m).1.thread ∷ []
unfolding cleanup
first_clocks g l m e = e

-- The loop of `dereg` ends, in at most two rounds and with an empty dirty list, for a thread that
-- is the only one registered and whose nodes were stamped before the next clock, below 2 ^ 64 - 1.
pub drain_alone :
    (g : Collector) (l : ThreadLists)
    → g.clocks ≡ l.thread ∷ []
    → g.clock < 0xffffffffffffffff
    → Below g.clock l.dirty
    → Drained (drain 3 g l)
drain_alone g l e h b =
    let m = getminclock g in
    let g1 = (cleanup g l m).0 in
    let l1 = (cleanup g l m).1 in
    let (now, below) = first_round g l m b in
    drain_more 2 g l (
      drain_more 1 g1 l1
        (drain_done 0 _ _ (second_round g1 l1 (first_clocks g l m e) (omega (arith, now)) below)))
