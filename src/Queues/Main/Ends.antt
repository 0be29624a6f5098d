-- ===== src/Queues/Main/Ends.antt =====
-- The two threads of each queue of part3 at the end of their loops.
use utd_cs6v81_spring.Base.{
  ℕ, zero, suc, ◌≤◌, ◌<◌, ◌≡◌, refl, ap, ◌∙◌, Bool, true, false, List, [], ◌∷◌, length,
  length-append, arith,
}
use utd_cs6v81_spring.Locks.Spin.{Mutex}
use utd_cs6v81_spring.Queues
use utd_cs6v81_spring.Queues.{ProducerPc, full_test, write_item, bump_tail, Pair, ConsumerPc}
use utd_cs6v81_spring.Queues.Order.{up_to, in_order}
use utd_cs6v81_spring.Queues.Locked
use utd_cs6v81_spring.Queues.Locked.{
  ProducerPlace, lock_push, wait_free, woken_free, signal_items, unlock_push, ConsumerPlace,
  lock_pop, empty_test, wait_items, woken_items, signal_free, read_item, bump_head, unlock_pop,
  wake_producer, Turn, producer_turn, consumer_turn, spurious_producer, spurious_consumer, Locked,
}
use utd_cs6v81_spring.Queues.Locked.Invariant.{got, put}
use utd_cs6v81_spring.Queues.Locked.Order.{Signalled, locked_in_order}

length-up_to : (n : ℕ) → length (up_to n) ≡ n
length-up_to zero = refl
length-up_to (suc n) = omega (arith, length-append (up_to n) (n ∷ []), length-up_to n)

-- The producer never puts more than `n` items.
abbrev Sends : (n sent : ℕ) → ProducerPc → Type 0
Sends n sent full_test = sent ≤ n
Sends n sent p = sent < n

produce-Sends :
    (n : ℕ) (s : Pair) (p : ProducerPc)
    → s.producer ≡ p
    → Sends n s.sent p
    → let s' = Queues.produce n s p in Sends n s'.sent s'.producer
unfolding Queues.produce
produce-Sends n s full_test e h = ground (arith, e)
produce-Sends n s write_item e h = h
produce-Sends n s bump_tail e h = omega (arith, h)

consume-Sends :
    (n : ℕ) (s : Pair) (c : ConsumerPc)
    → Sends n s.sent s.producer
    → let s' = Queues.consume s c in Sends n s'.sent s'.producer
unfolding Queues.consume
consume-Sends n s c h = ground (arith, h)

run-Sends :
    (n : ℕ) (s : Pair) (turns : List Bool)
    → Sends n s.sent s.producer
    → let s' = Queues.run n s turns in Sends n s'.sent s'.producer
unfolding Queues.run
run-Sends n s [] h = h
run-Sends n s (true ∷ turns) h =
    run-Sends n (Queues.produce n s s.producer) turns (produce-Sends n s s.producer refl h)
run-Sends n s (false ∷ turns) h =
    run-Sends n (Queues.consume s s.consumer) turns (consume-Sends n s s.consumer h)

Sends-le : (n sent : ℕ) (p : ProducerPc) → Sends n sent p → sent ≤ n
Sends-le n sent full_test h = h
Sends-le n sent write_item h = omega (arith, h)
Sends-le n sent bump_tail h = omega (arith, h)

-- LockFreeQueue of one slot or more, once its consumer has got `n` items: they are 0, 1, …, n - 1.
pub lockfree_taken :
    (memory : List ℕ) (capacity n : ℕ) (turns : List Bool)
    → 0 < capacity
    → length memory ≡ capacity
    → let s = Queues.run n (Queues.start memory capacity) turns in
      n ≤ length s.received → s.received ≡ up_to n
unfolding Queues.start
lockfree_taken memory capacity n turns room long enough =
    let s = Queues.run n (Queues.start memory capacity) turns in
    let (got_all, above, fits, count) = in_order memory capacity n turns room long in
    let most =
      Sends-le n s.sent s.producer
        (run-Sends n (Queues.start memory capacity) turns (omega arith)) in
    let all : s.queue.head ≡ n =
      omega (arith, ap length got_all, length-up_to s.queue.head, above, count, most, enough) in
    got_all ∙ ap up_to all

abbrev SendsLocked : (n sent : ℕ) → ProducerPlace → Type 0
SendsLocked n sent lock_push = sent ≤ n
SendsLocked n sent p = sent < n

put-le : (n sent : ℕ) (p : ProducerPlace) → SendsLocked n sent p → put sent p ≤ n
put-le n sent lock_push h = h
put-le n sent unlock_push h = omega (arith, h)
put-le n sent p h = omega (arith, h)

wake-Sends :
    (n sent : ℕ) (p : ProducerPlace) → SendsLocked n sent p → SendsLocked n sent (wake_producer p)
wake-Sends n sent wait_free h = h
wake-Sends n sent p h = h

whole :
    (n head : ℕ) (received : List ℕ)
    → received ≡ up_to head
    → head ≤ n
    → n ≤ length received
    → received ≡ up_to n
whole n head received e h k =
    let all : head ≡ n = omega (arith, ap length e, length-up_to head, h, k) in e ∙ ap up_to all

all_got :
    (n head : ℕ) (received : List ℕ) (c : ConsumerPlace)
    → got received c ≡ up_to head
    → head ≤ n
    → n ≤ length received
    → received ≡ up_to n
all_got n head received (unlock_pop v) e h k =
    absurd (omega (arith, ap length e, length-up_to head, length-append received (v ∷ []), h, k))
all_got n head received lock_pop e h k = whole n head received e h k
all_got n head received empty_test e h k = whole n head received e h k
all_got n head received wait_items e h k = whole n head received e h k
all_got n head received woken_items e h k = whole n head received e h k
all_got n head received signal_free e h k = whole n head received e h k
all_got n head received read_item e h k = whole n head received e h k
all_got n head received (bump_head v) e h k = whole n head received e h k

module _ (x : Mutex) where
  produce-SendsLocked :
      (n : ℕ) (s : Locked x) (p : ProducerPlace)
      → s.producer ≡ p
      → SendsLocked n s.sent p
      → let s' = Locked.produce x n s p in SendsLocked n s'.sent s'.producer
  unfolding Locked.produce
  produce-SendsLocked n s lock_push e h = ground (arith, e)
  produce-SendsLocked n s unlock_push e h = omega (arith, h)
  produce-SendsLocked n s p e h = ground (arith, e)

  consume-SendsLocked :
      (n : ℕ) (s : Locked x) (c : ConsumerPlace)
      → SendsLocked n s.sent s.producer
      → let s' = Locked.consume x n s c in SendsLocked n s'.sent s'.producer
  unfolding Locked.consume
  consume-SendsLocked n s signal_free h = ground (arith, wake-Sends n s.sent s.producer h)
  consume-SendsLocked n s c h = ground (arith, h)

  run-SendsLocked :
      (n : ℕ) (s : Locked x) (turns : List Turn)
      → SendsLocked n s.sent s.producer
      → let s' = Locked.run x n s turns in SendsLocked n s'.sent s'.producer
  unfolding Locked.run Locked.step
  run-SendsLocked n s [] h = h
  run-SendsLocked n s (producer_turn ∷ turns) h =
      run-SendsLocked n (Locked.step x n s producer_turn) turns
        (produce-SendsLocked n s s.producer refl h)
  run-SendsLocked n s (consumer_turn ∷ turns) h =
      run-SendsLocked n (Locked.step x n s consumer_turn) turns
        (consume-SendsLocked n s s.consumer h)
  run-SendsLocked n s (spurious_producer ∷ turns) h =
      run-SendsLocked n (Locked.step x n s spurious_producer) turns
        (wake-Sends n s.sent s.producer h)
  run-SendsLocked n s (spurious_consumer ∷ turns) h =
      run-SendsLocked n (Locked.step x n s spurious_consumer) turns h

  -- LockQueue likewise, when no thread wakes without a signal.
  pub locking_taken :
      (memory : List ℕ) (capacity n : ℕ) (turns : List Turn)
      → 0 < capacity
      → length memory ≡ capacity
      → Signalled turns
      → let s = Locked.run x n (Locked.start x memory capacity) turns in
        n ≤ length s.received → s.received ≡ up_to n
  unfolding Locked.start
  locking_taken memory capacity n turns room long quiet enough =
      let s = Locked.run x n (Locked.start x memory capacity) turns in
      let (got_all, above, fits, count, awake) =
        locked_in_order x memory capacity n turns room long quiet in
      let most =
        put-le n s.sent s.producer
          (run-SendsLocked n (Locked.start x memory capacity) turns (omega arith)) in
      all_got n s.queue.head s.received s.consumer got_all (omega (arith, above, count, most))
        enough
