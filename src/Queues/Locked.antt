-- ===== src/Queues/Locked.antt =====
-- project1/part3.cpp, LockQueue: one producer and one consumer over a queue with a mutex and one
-- condition variable, an access to a time. The mutex is a parameter. A thread inside
-- pthread_cond_wait has given the mutex up; a signal wakes it, and then it takes the mutex again
-- before it returns.
pub mod Invariant
pub mod Producer
pub mod Consumer
pub mod Order
pub mod Tests
use utd_cs6v81_spring.Base.{
  ℕ, ◌+◌, ◌-◌, ◌%◌, Bool, true, false, Option, none, some, List, [], ◌∷◌, ◌++◌, ◌==◌, ltb, length,
  get_or, set, if◌then◌else◌,
}
use utd_cs6v81_spring.Locks.Spin.{Mutex}
use utd_cs6v81_spring.Queues.{Queue, new_queue}

-- In `enqueue`: before the lock, before the test for a full queue, in the wait, after it has been
-- woken, before the test for an empty queue, before the write, before `tail_++`, before the unlock.
pub data ProducerPlace : Type 0 where
  lock_push full_test wait_free woken_free signal_items write_item bump_tail unlock_push :
      ProducerPlace

-- In `dequeue`, likewise; `x` once it has been read.
pub data ConsumerPlace : Type 0 where
  lock_pop empty_test wait_items woken_items signal_free read_item : ConsumerPlace
  bump_head : (x : ℕ) → ConsumerPlace
  unlock_pop : (x : ℕ) → ConsumerPlace

-- `signal`: it wakes the other thread, if that one waits.
abbrev pub wake_consumer : ConsumerPlace → ConsumerPlace
wake_consumer wait_items = woken_items
wake_consumer c = c

abbrev pub wake_producer : ProducerPlace → ProducerPlace
wake_producer wait_free = woken_free
wake_producer p = p

-- Who takes the next step; a thread can also wake from its wait with no signal.
pub data Turn : Type 0 where
  producer_turn consumer_turn spurious_producer spurious_consumer : Turn

module _ (x : Mutex) where
  pub record Locked : Type 0 where
    pub mutex : x.State
    pub queue : Queue
    pub producer : ProducerPlace
    pub sent : ℕ
    pub consumer : ConsumerPlace
    pub received : List ℕ

  -- A thread that asks for the mutex stays where it is until it has it.
  abbrev pub with_lock : Locked → Option x.State → (x.State → Locked) → Locked
  with_lock s none f = s
  with_lock s (some m) f = f m

  -- One access of `producer`, which puts `n` items.
  unfoldable pub produce : ℕ → Locked → ProducerPlace → Locked
  produce n s lock_push =
      if ltb s.sent n
      then with_lock s (x.acquire s.mutex) (λ m. record s { mutex = m; producer = full_test })
      else s
  produce n s full_test =
      if s.queue.tail - s.queue.head == s.queue.capacity
      then record s { mutex = x.release s.mutex; producer = wait_free }
      else record s { producer = signal_items }
  produce n s wait_free = s
  produce n s woken_free =
      with_lock s (x.acquire s.mutex) (λ m. record s { mutex = m; producer = signal_items })
  produce n s signal_items =
      if s.queue.tail == s.queue.head
      then record s { producer = write_item; consumer = wake_consumer s.consumer }
      else record s { producer = write_item }
  produce n s write_item = record s {
    queue = record (s.queue) { items = set s.queue.items (s.queue.tail % s.queue.capacity) s.sent };
    producer = bump_tail;
  }
  produce n s bump_tail = record s {
    queue = record (s.queue) { tail = s.queue.tail + 1 };
    producer = unlock_push;
  }
  produce n s unlock_push = record s {
    mutex = x.release s.mutex;
    producer = lock_push;
    sent = s.sent + 1;
  }

  -- One access of `consumer`, which takes `n` items.
  unfoldable pub consume : ℕ → Locked → ConsumerPlace → Locked
  consume n s lock_pop =
      if ltb (length s.received) n
      then with_lock s (x.acquire s.mutex) (λ m. record s { mutex = m; consumer = empty_test })
      else s
  consume n s empty_test =
      if s.queue.tail == s.queue.head
      then record s { mutex = x.release s.mutex; consumer = wait_items }
      else record s { consumer = signal_free }
  consume n s wait_items = s
  consume n s woken_items =
      with_lock s (x.acquire s.mutex) (λ m. record s { mutex = m; consumer = signal_free })
  consume n s signal_free =
      if s.queue.tail - s.queue.head == s.queue.capacity
      then record s { consumer = read_item; producer = wake_producer s.producer }
      else record s { consumer = read_item }
  consume n s read_item = record s {
    consumer = bump_head (get_or s.queue.items (s.queue.head % s.queue.capacity) 0);
  }
  consume n s (bump_head v) = record s {
    queue = record (s.queue) { head = s.queue.head + 1 };
    consumer = unlock_pop v;
  }
  consume n s (unlock_pop v) = record s {
    mutex = x.release s.mutex;
    consumer = lock_pop;
    received = s.received ++ (v ∷ []);
  }

  unfoldable pub step : ℕ → Locked → Turn → Locked
  unfolding produce consume
  step n s producer_turn = produce n s s.producer
  step n s consumer_turn = consume n s s.consumer
  step n s spurious_producer = record s { producer = wake_producer s.producer }
  step n s spurious_consumer = record s { consumer = wake_consumer s.consumer }

  unfoldable pub run : ℕ → Locked → List Turn → Locked
  run n s [] = s
  run n s (t ∷ turns) = run n (step n s t) turns

  -- The constructor of LockQueue, and the two threads before their first calls.
  unfoldable pub start : List ℕ → ℕ → Locked
  unfolding new_queue
  start memory capacity = record {
    mutex = x.fresh;
    queue = new_queue memory capacity;
    producer = lock_push;
    sent = 0;
    consumer = lock_pop;
    received = [];
  }
