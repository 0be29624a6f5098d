-- ===== src/Stacks/Collector/Tests.antt =====
-- A thread with three nodes on its dirty list.
use utd_cs6v81_spring.Base.{ℕ, ◌+◌, ◌≡◌, refl, inl, inr, List, [], ◌∷◌, arith}
use utd_cs6v81_spring.Stacks.Collector.{
  Stamped, Collector, ThreadLists, getminclock, sweep, cleanup, drain,
}
use utd_cs6v81_spring.Stacks.Collector.Safety.{Below, occurs, cleanup_safe, cleanup-occurs}
use utd_cs6v81_spring.Stacks.Collector.Leaving.{Drained, drain_alone}

abbrev stamp : ℕ → ℕ → Stamped
stamp a c = record { node = a; clock = c }

abbrev three : List Stamped
three = stamp 100 3 ∷ stamp 200 4 ∷ stamp 300 6 ∷ []

abbrev shared : Collector
shared = record { clock = 9; clocks = 0 ∷ 1 ∷ []; clock_of = λ t. 5 + t; total_allocs = 0 }

abbrev own : ThreadLists
own = record { thread = 0; dirty = three; clean = []; allocs = 3 }

cleanup_safe_example :
    let (g', l', deleted) = cleanup shared own (getminclock shared) in
    Below 6 l'.clean × Below 6 deleted
cleanup_safe_example = cleanup_safe shared own 1 (inr (inl refl)) tt

cleanup-occurs_example :
    let (g', l', deleted) = cleanup shared own 5 in
    occurs 200 l'.dirty + occurs 200 l'.clean + occurs 200 deleted
    ≡ occurs 200 three + occurs 200 []
cleanup-occurs_example = cleanup-occurs shared own 5 200

drain_alone_example : Drained (drain 3 (record shared { clocks = 0 ∷ [] }) own)
drain_alone_example =
    drain_alone (record shared { clocks = 0 ∷ [] }) own refl (omega arith) (omega arith)

-- The first two nodes are clean, and the last one given back is used first.
swept : (cleanup shared own (getminclock shared)).1.clean ≡ stamp 200 4 ∷ stamp 100 3 ∷ []
unfolding cleanup sweep getminclock
swept = refl
