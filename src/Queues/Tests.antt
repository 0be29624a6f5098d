-- ===== src/Queues/Tests.antt =====
-- A queue of one slot.
use utd_cs6v81_spring.Base.{◌+◌, ◌≤◌, ◌≡◌, refl, Bool, true, false, List, [], ◌∷◌, arith}
use utd_cs6v81_spring.Queues.{start, run}
use utd_cs6v81_spring.Queues.Order.{up_to, in_order}

abbrev turns : List Bool
turns =
    true ∷ true ∷ true ∷ true ∷ false ∷ false ∷ false ∷ true ∷ true ∷ true ∷ false ∷ false ∷ false
    ∷ []

in_order_example :
    let s = run 5 (start (9 ∷ []) 1) turns in
    (s.received ≡ up_to s.queue.head)
    × (s.queue.head ≤ s.queue.tail)
    × (s.queue.tail ≤ s.queue.head + s.queue.capacity)
    × (s.sent ≡ s.queue.tail)
in_order_example = in_order (9 ∷ []) 1 5 turns (omega arith) refl

two_items : (run 5 (start (9 ∷ []) 1) turns).received ≡ 0 ∷ 1 ∷ []
unfolding run start
two_items = refl
