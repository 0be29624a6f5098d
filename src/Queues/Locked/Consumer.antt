-- ===== src/Queues/Locked/Consumer.antt =====
-- The steps of LockQueue's consumer keep the invariant.
use utd_cs6v81_spring.Base.{ℕ, ◌-◌, refl, Bool-cases, inl, inr, List, ◌==◌, ltb, length, arith}
use utd_cs6v81_spring.Locks.Spin.{Mutex}
use utd_cs6v81_spring.Queues.{ProducerPc, ConsumerPc, Queue}
use utd_cs6v81_spring.Queues.Order.{consume-Inv, begin_read}
use utd_cs6v81_spring.Queues.Locked.{
  ProducerPlace, ConsumerPlace, lock_pop, empty_test, wait_items, woken_items, signal_free,
  read_item, bump_head, unlock_pop, Locked, consume,
}
use utd_cs6v81_spring.Queues.Locked.Invariant.{
  LockInv, waits, enters, ask, taken-le, pushing-le, Sleeps-unsignalled, Sleeps-signalled,
  Sleeps-bumped, wake_producer-same,
}

module _ (x : Mutex) where
  module _ (m : x.State) (q : Queue) (p : ProducerPlace) (sent : ℕ) (received : List ℕ)
      (n : ℕ) where
    abbrev at : ConsumerPlace → Locked x
    at c = record {
      mutex = m;
      queue = q;
      producer = p;
      sent = sent;
      consumer = c;
      received = received;
    }

    pub consume-LockInv : (c : ConsumerPlace) → LockInv x (at c) → LockInv x (consume x n (at c) c)
    unfolding consume utd_cs6v81_spring.Queues.consume
    consume-LockInv lock_pop i = elim (Bool-cases (ltb (length received) n)) [
      | inl more ↦ elim (ask x m) [
        | waits g ↦ rw (more, g) i
        | enters m' g free held ↦
            rw (more, g)
              (record {
                inv = i.inv;
                owner = ground (arith, i.owner, free, held);
                sleeps = i.sleeps;
                starves = tt;
              })
      ]
      | inr over ↦ rw over i
    ]
    consume-LockInv empty_test i = elim (Bool-cases (q.tail == q.head)) [
      | inl empty ↦ rw empty (record {
        inv = i.inv;
        owner = ground (arith, i.owner, x.release_free m);
        sleeps = i.sleeps;
        starves = (ground arith, omega (arith, pushing-le p, i.owner, taken-le x m));
      })
      | inr some_left ↦ rw some_left (record {
        inv = begin_read i.inv (ground (arith, i.inv.above));
        owner = i.owner;
        sleeps = i.sleeps;
        starves = tt;
      })
    ]
    consume-LockInv wait_items i = i
    consume-LockInv woken_items i = elim (ask x m) [
      | waits g ↦ rw g i
      | enters m' g free held ↦ rw g (record {
        inv = begin_read i.inv (ground (arith, i.starves, i.owner, pushing-le p, free));
        owner = ground (arith, i.owner, free, held);
        sleeps = i.sleeps;
        starves = tt;
      })
    ]
    consume-LockInv signal_free i = elim (Bool-cases (q.tail - q.head == q.capacity)) [
      | inl full ↦
          let (place, items, hold) = wake_producer-same sent p in
          rw full (record {
            inv = rw (place, items) (i.inv);
            owner = omega (arith, hold, i.owner);
            sleeps = Sleeps-signalled q p;
            starves = tt;
          })
      | inr free ↦ rw free (record {
        inv = i.inv;
        owner = i.owner;
        sleeps = Sleeps-unsignalled q p (λ e. ground arith) i.sleeps;
        starves = tt;
      })
    ]
    consume-LockInv read_item i = record {
      inv = consume-Inv i.inv ConsumerPc.read_item refl;
      owner = i.owner;
      sleeps = i.sleeps;
      starves = tt;
    }
    consume-LockInv (bump_head v) i = record {
      inv = consume-Inv i.inv (ConsumerPc.bump_head v) refl;
      owner = i.owner;
      sleeps = Sleeps-bumped q p i.inv.fits i.sleeps;
      starves = tt;
    }
    consume-LockInv (unlock_pop v) i = record {
      inv = i.inv;
      owner = ground (arith, i.owner, x.release_free m);
      sleeps = i.sleeps;
      starves = tt;
    }
