-- ===== src/Queues/Locked/Invariant.antt =====
-- What LockQueue keeps: the invariant of LockFreeQueue at the same moments, one holder of the mutex
-- at most, and what a sleeping thread waits for.
use utd_cs6v81_spring.Base.{
  ℕ, ◌+◌, ◌≤◌, ◌<◌, ◌≡◌, ◌≢◌, refl, ◌⊎◌, inl, inr, true, false, Option, none, some, List, [], ◌∷◌,
  ◌++◌, Bool-cases, arith, if◌then◌else◌,
}
use utd_cs6v81_spring.Locks.Spin.{Mutex}
use utd_cs6v81_spring.Queues.{ProducerPc, ConsumerPc, Queue, Pair}
use utd_cs6v81_spring.Queues.Order.{Inv}
use utd_cs6v81_spring.Queues.Locked.{
  ProducerPlace, lock_push, full_test, wait_free, woken_free, signal_items, write_item, bump_tail,
  unlock_push, ConsumerPlace, lock_pop, empty_test, wait_items, woken_items, signal_free, read_item,
  bump_head, unlock_pop, wake_consumer, wake_producer, Locked,
}

-- The places, the items put and the items taken as LockFreeQueue has them.
abbrev pub plain_producer : ProducerPlace → ProducerPc
plain_producer signal_items = ProducerPc.write_item
plain_producer write_item = ProducerPc.write_item
plain_producer bump_tail = ProducerPc.bump_tail
plain_producer p = ProducerPc.full_test

abbrev pub plain_consumer : ConsumerPlace → ConsumerPc
plain_consumer signal_free = ConsumerPc.read_item
plain_consumer read_item = ConsumerPc.read_item
plain_consumer (bump_head v) = ConsumerPc.bump_head v
plain_consumer c = ConsumerPc.empty_test

abbrev pub put : ℕ → ProducerPlace → ℕ
put sent unlock_push = sent + 1
put sent p = sent

abbrev pub got : List ℕ → ConsumerPlace → List ℕ
got received (unlock_pop v) = received ++ (v ∷ [])
got received c = received

-- Which thread holds the mutex.
abbrev pub push_holds : ProducerPlace → ℕ
push_holds lock_push = 0
push_holds wait_free = 0
push_holds woken_free = 0
push_holds p = 1

abbrev pub pop_holds : ConsumerPlace → ℕ
pop_holds lock_pop = 0
pop_holds wait_items = 0
pop_holds woken_items = 0
pop_holds c = 1

-- Between its signal and its bump a thread is about to give the other one what it waits for.
abbrev pub pushing : ProducerPlace → ℕ
pushing write_item = 1
pushing bump_tail = 1
pushing p = 0

abbrev pub popping : ConsumerPlace → ℕ
popping read_item = 1
popping (bump_head v) = 1
popping c = 0

-- A producer that sleeps, sleeps on a full queue while no pop is under way; one that has been woken
-- finds room once it has the mutex. `k` is `popping` of the consumer.
abbrev pub Sleeps : Queue → (k : ℕ) → ProducerPlace → Type 0
Sleeps q k wait_free = (q.tail ≡ q.head + q.capacity) × (k ≡ 0)
Sleeps q k woken_free = (q.tail < q.head + q.capacity) ⊎ (k ≡ 1)
Sleeps q k p = Unit

abbrev pub Starves : Queue → (k : ℕ) → ConsumerPlace → Type 0
Starves q k wait_items = (q.tail ≡ q.head) × (k ≡ 0)
Starves q k woken_items = (q.head < q.tail) ⊎ (k ≡ 1)
Starves q k c = Unit

pub popping-le : (c : ConsumerPlace) → popping c ≤ pop_holds c
popping-le lock_pop = omega arith
popping-le empty_test = omega arith
popping-le wait_items = omega arith
popping-le woken_items = omega arith
popping-le signal_free = omega arith
popping-le read_item = omega arith
popping-le (bump_head v) = omega arith
popping-le (unlock_pop v) = omega arith

pub pushing-le : (p : ProducerPlace) → pushing p ≤ push_holds p
pushing-le lock_push = omega arith
pushing-le full_test = omega arith
pushing-le wait_free = omega arith
pushing-le woken_free = omega arith
pushing-le signal_items = omega arith
pushing-le write_item = omega arith
pushing-le bump_tail = omega arith
pushing-le unlock_push = omega arith

-- The other thread's view of the three steps that change what it waits for: no signal since none is
-- needed, a signal, and the bump.
pub Starves-unsignalled :
    (q : Queue) (c : ConsumerPlace) → q.tail ≢ q.head → Starves q 0 c → Starves q 1 c
Starves-unsignalled q lock_pop ne h = tt
Starves-unsignalled q empty_test ne h = tt
Starves-unsignalled q wait_items ne h = absurd (ne h.0)
Starves-unsignalled q woken_items ne h = inr refl
Starves-unsignalled q signal_free ne h = tt
Starves-unsignalled q read_item ne h = tt
Starves-unsignalled q (bump_head v) ne h = tt
Starves-unsignalled q (unlock_pop v) ne h = tt

pub Starves-signalled : (q : Queue) (c : ConsumerPlace) → Starves q 1 (wake_consumer c)
Starves-signalled q lock_pop = tt
Starves-signalled q empty_test = tt
Starves-signalled q wait_items = inr refl
Starves-signalled q woken_items = inr refl
Starves-signalled q signal_free = tt
Starves-signalled q read_item = tt
Starves-signalled q (bump_head v) = tt
Starves-signalled q (unlock_pop v) = tt

pub Starves-bumped :
    (q : Queue) (c : ConsumerPlace)
    → q.head ≤ q.tail
    → Starves q 1 c
    → Starves (record q { tail = q.tail + 1 }) 0 c
Starves-bumped q lock_pop above h = tt
Starves-bumped q empty_test above h = tt
Starves-bumped q wait_items above h = absurd (omega (arith, h))
Starves-bumped q woken_items above h = inl (omega arith)
Starves-bumped q signal_free above h = tt
Starves-bumped q read_item above h = tt
Starves-bumped q (bump_head v) above h = tt
Starves-bumped q (unlock_pop v) above h = tt

pub Sleeps-unsignalled :
    (q : Queue) (p : ProducerPlace) → q.tail ≢ q.head + q.capacity → Sleeps q 0 p → Sleeps q 1 p
Sleeps-unsignalled q lock_push ne h = tt
Sleeps-unsignalled q full_test ne h = tt
Sleeps-unsignalled q wait_free ne h = absurd (ne h.0)
Sleeps-unsignalled q woken_free ne h = inr refl
Sleeps-unsignalled q signal_items ne h = tt
Sleeps-unsignalled q write_item ne h = tt
Sleeps-unsignalled q bump_tail ne h = tt
Sleeps-unsignalled q unlock_push ne h = tt

pub Sleeps-signalled : (q : Queue) (p : ProducerPlace) → Sleeps q 1 (wake_producer p)
Sleeps-signalled q lock_push = tt
Sleeps-signalled q full_test = tt
Sleeps-signalled q wait_free = inr refl
Sleeps-signalled q woken_free = inr refl
Sleeps-signalled q signal_items = tt
Sleeps-signalled q write_item = tt
Sleeps-signalled q bump_tail = tt
Sleeps-signalled q unlock_push = tt

pub Sleeps-bumped :
    (q : Queue) (p : ProducerPlace)
    → q.tail ≤ q.head + q.capacity
    → Sleeps q 1 p
    → Sleeps (record q { head = q.head + 1 }) 0 p
Sleeps-bumped q lock_push fits h = tt
Sleeps-bumped q full_test fits h = tt
Sleeps-bumped q wait_free fits h = absurd (omega (arith, h))
Sleeps-bumped q woken_free fits h = inl (omega arith)
Sleeps-bumped q signal_items fits h = tt
Sleeps-bumped q write_item fits h = tt
Sleeps-bumped q bump_tail fits h = tt
Sleeps-bumped q unlock_push fits h = tt

-- To wake is to stay where LockFreeQueue's thread stands.
pub wake_consumer-same :
    (received : List ℕ) (c : ConsumerPlace)
    → (plain_consumer (wake_consumer c) ≡ plain_consumer c)
      × (got received (wake_consumer c) ≡ got received c)
      × (pop_holds (wake_consumer c) ≡ pop_holds c)
wake_consumer-same received lock_pop = (refl, refl, refl)
wake_consumer-same received empty_test = (refl, refl, refl)
wake_consumer-same received wait_items = (refl, refl, refl)
wake_consumer-same received woken_items = (refl, refl, refl)
wake_consumer-same received signal_free = (refl, refl, refl)
wake_consumer-same received read_item = (refl, refl, refl)
wake_consumer-same received (bump_head v) = (refl, refl, refl)
wake_consumer-same received (unlock_pop v) = (refl, refl, refl)

pub wake_producer-same :
    (sent : ℕ) (p : ProducerPlace)
    → (plain_producer (wake_producer p) ≡ plain_producer p)
      × (put sent (wake_producer p) ≡ put sent p)
      × (push_holds (wake_producer p) ≡ push_holds p)
wake_producer-same sent lock_push = (refl, refl, refl)
wake_producer-same sent full_test = (refl, refl, refl)
wake_producer-same sent wait_free = (refl, refl, refl)
wake_producer-same sent woken_free = (refl, refl, refl)
wake_producer-same sent signal_items = (refl, refl, refl)
wake_producer-same sent write_item = (refl, refl, refl)
wake_producer-same sent bump_tail = (refl, refl, refl)
wake_producer-same sent unlock_push = (refl, refl, refl)

module _ (x : Mutex) where
  abbrev pub plain : Locked x → Pair
  plain s = record {
    queue = s.queue;
    producer = plain_producer s.producer;
    sent = put s.sent s.producer;
    consumer = plain_consumer s.consumer;
    received = got s.received s.consumer;
  }

  pub record LockInv (s : Locked x) : Type 0 where
    pub inv : Inv (plain s)
    pub owner : push_holds s.producer + pop_holds s.consumer ≡ (if x.held s.mutex then 1 else 0)
    pub sleeps : Sleeps s.queue (popping s.consumer) s.producer
    pub starves : Starves s.queue (pushing s.producer) s.consumer

  abbrev pub taken : x.State → ℕ
  taken m = if x.held m then 1 else 0

  pub taken-le : (m : x.State) → taken m ≤ 1
  taken-le m = ground arith

  -- A thread that asks for the mutex gets it only when no other holds it.
  pub data Asked (m : x.State) (o : Option x.State) : Type 0 where
    waits : o ≡ none → Asked m o
    enters : (m' : x.State) → o ≡ some m' → x.held m ≡ false → x.held m' ≡ true → Asked m o

  pub ask : (m : x.State) → Asked m (x.acquire m)
  ask m = elim (Bool-cases (x.held m)) [
    | inl busy ↦ waits (x.acquire_held m busy)
    | inr free ↦ let (m', got', held) = x.acquire_free m free in enters m' got' free held
  ]
