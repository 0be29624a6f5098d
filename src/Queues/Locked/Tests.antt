-- ===== src/Queues/Locked/Tests.antt =====
-- A queue of one slot. With signals the second item waits for the first to be taken; when the
-- producer wakes with no signal it overwrites the first item.
use utd_cs6v81_spring.Base.{ℕ, zero, suc, ◌+◌, ◌≤◌, ◌≡◌, refl, false, ◌&&◌, List, [], ◌∷◌, arith}
use utd_cs6v81_spring.Locks.Samples.{bit_mutex}
use utd_cs6v81_spring.Queues.Order.{up_to}
use utd_cs6v81_spring.Queues.Locked.{
  Turn, producer_turn, consumer_turn, spurious_producer, run, start, step, produce, consume,
}
use utd_cs6v81_spring.Queues.Locked.Invariant.{got, put}
use utd_cs6v81_spring.Queues.Locked.Order.{sleeping_producer, sleeping_consumer, locked_in_order}

abbrev pub times : ℕ → Turn → List Turn → List Turn
times zero t rest = rest
times (suc k) t rest = t ∷ times k t rest

-- Six steps put an item, two more find the queue full; seven steps take an item and wake the
-- producer, which has five more steps to go.
abbrev pub signalled : List Turn
signalled =
    times 8 producer_turn (times 6 consumer_turn (times 5 producer_turn (times 6 consumer_turn [])))

locked_in_order_example :
    let s = run bit_mutex 2 (start bit_mutex (9 ∷ []) 1) signalled in
    (got s.received s.consumer ≡ up_to s.queue.head)
    × (s.queue.head ≤ s.queue.tail)
    × (s.queue.tail ≤ s.queue.head + s.queue.capacity)
    × (put s.sent s.producer ≡ s.queue.tail)
    × ((sleeping_producer s.producer && sleeping_consumer s.consumer) ≡ false)
locked_in_order_example = locked_in_order bit_mutex (9 ∷ []) 1 2 signalled (omega arith) refl tt

both_taken : (run bit_mutex 2 (start bit_mutex (9 ∷ []) 1) signalled).received ≡ 0 ∷ 1 ∷ []
unfolding run start step produce consume
both_taken = refl

abbrev unsignalled : List Turn
unsignalled =
    times 8 producer_turn (spurious_producer ∷ times 5 producer_turn (times 12 consumer_turn []))

overwritten : (run bit_mutex 2 (start bit_mutex (9 ∷ []) 1) unsignalled).received ≡ 1 ∷ 1 ∷ []
unfolding run start step produce consume
overwritten = refl
