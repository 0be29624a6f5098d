-- ===== src/Queues.antt =====
-- project1/part3.cpp, LockFreeQueue: one producer puts 0, 1, 2, … into a ring and one consumer
-- takes them out, an access to shared memory at a time. `head_` and `tail_` are ints; they are
-- numbers here, which is the same while fewer than 2 ^ 31 items are put.
pub mod Order
pub mod Locked
pub mod Main
mod Tests
use utd_cs6v81_spring.Base.{
  ℕ, ◌+◌, ◌-◌, ◌%◌, Bool, true, false, List, [], ◌∷◌, ◌++◌, ◌==◌, ltb, get_or, set, replicate,
  if◌then◌else◌,
}

-- In `enqueue`: at the test for a full queue, before the write of the item, before `tail_++`.
pub data ProducerPc : Type 0 where
  full_test write_item bump_tail : ProducerPc

-- In `dequeue`: at the test for an empty queue, before the read of the item, before `head_++`.
pub data ConsumerPc : Type 0 where
  empty_test read_item : ConsumerPc
  bump_head : (x : ℕ) → ConsumerPc

pub record Queue : Type 0 where
  pub items : List ℕ
  pub head : ℕ
  pub tail : ℕ
  pub capacity : ℕ

-- The queue with both threads: their places, their loop variables `i`, and what `dequeue` has
-- returned.
pub record Pair : Type 0 where
  pub queue : Queue
  pub producer : ProducerPc
  pub sent : ℕ
  pub consumer : ConsumerPc
  pub received : List ℕ

-- The constructor; `memory` is what the new array held.
unfoldable pub new_queue : List ℕ → ℕ → Queue
new_queue memory capacity = record { items = memory; head = 0; tail = 0; capacity = capacity }

unfoldable pub start : List ℕ → ℕ → Pair
unfolding new_queue
start memory capacity = record {
  queue = new_queue memory capacity;
  producer = full_test;
  sent = 0;
  consumer = empty_test;
  received = [];
}

-- One access of `producer`, which puts `n` items.
unfoldable pub produce : ℕ → Pair → ProducerPc → Pair
produce n s full_test =
    if ltb s.sent n
    then if s.queue.tail - s.queue.head == s.queue.capacity
      then s
      else record s { producer = write_item }
    else s
produce n s write_item = record s {
  queue = record (s.queue) { items = set s.queue.items (s.queue.tail % s.queue.capacity) s.sent };
  producer = bump_tail;
}
produce n s bump_tail = record s {
  queue = record (s.queue) { tail = s.queue.tail + 1 };
  producer = full_test;
  sent = s.sent + 1;
}

-- One access of `consumer`.
unfoldable pub consume : Pair → ConsumerPc → Pair
consume s empty_test = if s.queue.tail == s.queue.head then s else record s { consumer = read_item }
consume s read_item = record s {
  consumer = bump_head (get_or s.queue.items (s.queue.head % s.queue.capacity) 0);
}
consume s (bump_head x) = record s {
  queue = record (s.queue) { head = s.queue.head + 1 };
  consumer = empty_test;
  received = s.received ++ (x ∷ []);
}

-- A schedule says for each access whether the producer makes it.
unfoldable pub run : ℕ → Pair → List Bool → Pair
unfolding produce consume
run n s [] = s
run n s (true ∷ turns) = run n (produce n s s.producer) turns
run n s (false ∷ turns) = run n (consume s s.consumer) turns
