-- ===== src/Exchange/Visit.antt =====
-- project3/Exchanger.cpp, EliminationArray: which exchanger a visit uses, and what it returns.
use utd_cs6v81_spring.Base.{ℕ, Option, none, some, leb, if◌then◌else◌}
use utd_cs6v81_spring.Locks.Backoff.{Random}
use utd_cs6v81_spring.Exchange.{Pc, returned, timed_out}

-- `min`
unfoldable pub min32 : ℕ → ℕ → ℕ
min32 left right = if leb left right then left else right

-- The words of the exchangers of a new array, at the indices that it has.
abbrev pub new_array : ℕ → ℕ
new_array = λ _. 0

module _ (r : Random) where
  -- The index that `visit` draws, with the generator afterwards.
  unfoldable pub visit_index : ℕ → ℕ → r.Gen → ℕ × r.Gen
  unfolding min32
  visit_index maxrange range g = r.draw 0 (min32 range maxrange) g

-- What `visit` returns when `exchange` has ended at a place: the node, or its own after any
-- exception.
abbrev pub visited : Pc → Option ℕ
visited (returned item) = some item
visited (timed_out n) = some n
visited p = none
