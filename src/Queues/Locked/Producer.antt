-- ===== src/Queues/Locked/Producer.antt =====
-- The steps of LockQueue's producer keep the invariant.
use utd_cs6v81_spring.Base.{ℕ, ◌-◌, refl, Bool-cases, inl, inr, List, ◌==◌, ltb, arith}
use utd_cs6v81_spring.Locks.Spin.{Mutex}
use utd_cs6v81_spring.Queues.{ProducerPc, ConsumerPc, Queue}
use utd_cs6v81_spring.Queues.Order.{produce-Inv, begin_write}
use utd_cs6v81_spring.Queues.Locked.{
  ProducerPlace, lock_push, full_test, wait_free, woken_free, signal_items, write_item, bump_tail,
  unlock_push, ConsumerPlace, Locked, produce,
}
use utd_cs6v81_spring.Queues.Locked.Invariant.{
  LockInv, waits, enters, ask, taken-le, popping-le, Starves-unsignalled, Starves-signalled,
  Starves-bumped, wake_consumer-same,
}

module _ (x : Mutex) where
  module _ (m : x.State) (q : Queue) (sent : ℕ) (c : ConsumerPlace) (received : List ℕ)
      (n : ℕ) where
    abbrev at : ProducerPlace → Locked x
    at p = record {
      mutex = m;
      queue = q;
      producer = p;
      sent = sent;
      consumer = c;
      received = received;
    }

    pub produce-LockInv : (p : ProducerPlace) → LockInv x (at p) → LockInv x (produce x n (at p) p)
    unfolding produce utd_cs6v81_spring.Queues.produce
    produce-LockInv lock_push i = elim (Bool-cases (ltb sent n)) [
      | inl more ↦ elim (ask x m) [
        | waits g ↦ rw (more, g) i
        | enters m' g free held ↦
            rw (more, g)
              (record {
                inv = i.inv;
                owner = ground (arith, i.owner, free, held);
                sleeps = tt;
                starves = i.starves;
              })
      ]
      | inr over ↦ rw over i
    ]
    produce-LockInv full_test i = elim (Bool-cases (q.tail - q.head == q.capacity)) [
      | inl full ↦ rw full (record {
        inv = i.inv;
        owner = ground (arith, i.owner, x.release_free m);
        sleeps = (ground (arith, i.inv.above), omega (arith, popping-le c, i.owner, taken-le x m));
        starves = i.starves;
      })
      | inr free ↦ rw free (record {
        inv = begin_write i.inv (ground (arith, i.inv.fits, i.inv.above));
        owner = i.owner;
        sleeps = tt;
        starves = i.starves;
      })
    ]
    produce-LockInv wait_free i = i
    produce-LockInv woken_free i = elim (ask x m) [
      | waits g ↦ rw g i
      | enters m' g free held ↦ rw g (record {
        inv = begin_write i.inv (ground (arith, i.sleeps, i.owner, popping-le c, free));
        owner = ground (arith, i.owner, free, held);
        sleeps = tt;
        starves = i.starves;
      })
    ]
    produce-LockInv signal_items i = elim (Bool-cases (q.tail == q.head)) [
      | inl empty ↦
          let (place, items, hold) = wake_consumer-same received c in
          rw empty (record {
            inv = rw (place, items) (i.inv);
            owner = omega (arith, hold, i.owner);
            sleeps = tt;
            starves = Starves-signalled q c;
          })
      | inr some_left ↦ rw some_left (record {
        inv = i.inv;
        owner = i.owner;
        sleeps = tt;
        starves = Starves-unsignalled q c (ground arith) i.starves;
      })
    ]
    produce-LockInv write_item i = record {
      inv = produce-Inv i.inv n ProducerPc.write_item refl;
      owner = i.owner;
      sleeps = tt;
      starves = i.starves;
    }
    produce-LockInv bump_tail i = record {
      inv = produce-Inv i.inv n ProducerPc.bump_tail refl;
      owner = i.owner;
      sleeps = tt;
      starves = Starves-bumped q c i.inv.above i.starves;
    }
    produce-LockInv unlock_push i = record {
      inv = i.inv;
      owner = ground (arith, i.owner, x.release_free m);
      sleeps = tt;
      starves = i.starves;
    }
