-- ===== src/Queues/Locked/Order.antt =====
-- What LockQueue promises its two threads.
use utd_cs6v81_spring.Base.{
  ℕ, ◌+◌, ◌≤◌, ◌<◌, ◌≡◌, refl, Bool, true, false, ◌&&◌, List, [], ◌∷◌, length, arith,
}
use utd_cs6v81_spring.Locks.Spin.{Mutex}
use utd_cs6v81_spring.Queues.{Queue}
use utd_cs6v81_spring.Queues.Order.{up_to, start-Inv}
use utd_cs6v81_spring.Queues.Locked.{
  ProducerPlace, wait_free, lock_push, full_test, woken_free, signal_items, write_item, bump_tail,
  unlock_push, ConsumerPlace, wait_items, lock_pop, empty_test, woken_items, signal_free, read_item,
  bump_head, unlock_pop, Turn, producer_turn, consumer_turn, spurious_producer, spurious_consumer,
  Locked, step, run, start,
}
use utd_cs6v81_spring.Queues.Locked.Invariant.{got, put, Sleeps, Starves, LockInv}
use utd_cs6v81_spring.Queues.Locked.Producer.{produce-LockInv}
use utd_cs6v81_spring.Queues.Locked.Consumer.{consume-LockInv}

-- A schedule in which no thread wakes without a signal.
abbrev pub Signalled : List Turn → Type 0
Signalled [] = Unit
Signalled (producer_turn ∷ turns) = Signalled turns
Signalled (consumer_turn ∷ turns) = Signalled turns
Signalled (spurious_producer ∷ turns) = ⊥
Signalled (spurious_consumer ∷ turns) = ⊥

abbrev pub sleeping_producer : ProducerPlace → Bool
sleeping_producer wait_free = true
sleeping_producer p = false

abbrev pub sleeping_consumer : ConsumerPlace → Bool
sleeping_consumer wait_items = true
sleeping_consumer c = false

module _ (x : Mutex) where
  run-LockInv :
      (n : ℕ) (s : Locked x) (turns : List Turn)
      → Signalled turns
      → LockInv x s
      → LockInv x (run x n s turns)
  unfolding run step
  run-LockInv n s [] q i = i
  run-LockInv n s (producer_turn ∷ turns) q i =
      run-LockInv n (step x n s producer_turn) turns q
        (produce-LockInv x s.mutex s.queue s.sent s.consumer s.received n s.producer i)
  run-LockInv n s (consumer_turn ∷ turns) q i =
      run-LockInv n (step x n s consumer_turn) turns q
        (consume-LockInv x s.mutex s.queue s.producer s.sent s.received n s.consumer i)
  run-LockInv n s (spurious_producer ∷ turns) q i = elim q [ ]
  run-LockInv n s (spurious_consumer ∷ turns) q i = elim q [ ]

  start-LockInv :
      (memory : List ℕ) (capacity : ℕ)
      → 0 < capacity
      → length memory ≡ capacity
      → LockInv x (start x memory capacity)
  unfolding start utd_cs6v81_spring.Queues.start
  start-LockInv memory capacity room long = record {
    inv = start-Inv memory capacity room long;
    owner = ground (arith, x.fresh_free);
    sleeps = tt;
    starves = tt;
  }

not_both :
    (q : Queue) (k l : ℕ) (p : ProducerPlace) (c : ConsumerPlace)
    → 0 < q.capacity
    → Sleeps q k p
    → Starves q l c
    → (sleeping_producer p && sleeping_consumer c) ≡ false
not_both q k l wait_free wait_items room a b = absurd (omega (arith, a, b))
not_both q k l wait_free lock_pop room a b = refl
not_both q k l wait_free empty_test room a b = refl
not_both q k l wait_free woken_items room a b = refl
not_both q k l wait_free signal_free room a b = refl
not_both q k l wait_free read_item room a b = refl
not_both q k l wait_free (bump_head v) room a b = refl
not_both q k l wait_free (unlock_pop v) room a b = refl
not_both q k l lock_push c room a b = refl
not_both q k l full_test c room a b = refl
not_both q k l woken_free c room a b = refl
not_both q k l signal_items c room a b = refl
not_both q k l write_item c room a b = refl
not_both q k l bump_tail c room a b = refl
not_both q k l unlock_push c room a b = refl

-- LockQueue of one slot or more over any mutex, with one producer and one consumer interleaved in
-- any order, when no thread wakes from its wait without a signal: the items that the consumer has
-- taken are 0, 1, 2, … in this order, as many as `head_` says; there are never more than `capacity`
-- items in the queue, `tail_` counts the items put, and the two threads never sleep both.
pub locked_in_order :
    (x : Mutex) (memory : List ℕ) (capacity n : ℕ) (turns : List Turn)
    → 0 < capacity
    → length memory ≡ capacity
    → Signalled turns
    → let s = run x n (start x memory capacity) turns in
      (got s.received s.consumer ≡ up_to s.queue.head)
      × (s.queue.head ≤ s.queue.tail)
      × (s.queue.tail ≤ s.queue.head + s.queue.capacity)
      × (put s.sent s.producer ≡ s.queue.tail)
      × ((sleeping_producer s.producer && sleeping_consumer s.consumer) ≡ false)
locked_in_order x memory capacity n turns room long quiet =
    let s = run x n (start x memory capacity) turns in
    let i =
      run-LockInv x n (start x memory capacity) turns quiet
        (start-LockInv x memory capacity room long) in
    (
      i.inv.got,
      i.inv.above,
      i.inv.fits,
      i.inv.count,
      not_both s.queue _ _ s.producer s.consumer i.inv.room i.sleeps i.starves,
    )
