-- ===== src/Queues/Order.antt =====
-- What the consumer gets.
use native.Mathlib.Nat.{mod-lt}
use native.Mathlib.Numerals.{add-one}
use utd_cs6v81_spring.Base.{
  ℕ, zero, suc, ◌+◌, ◌-◌, ◌%◌, ◌≤◌, ◌<◌, ◌≡◌, refl, sym, ◌∙◌, Bool, true, false, List, [], ◌∷◌,
  ◌++◌, ◌==◌, ltb, get_or, set, length, length-set, get_or-set_self, get_or-set_ne, ℕ_discrete,
  Bool-cases, inl, inr, arith,
}
use utd_cs6v81_spring.Locks.Anderson.Ghost.{mod_injective}
use utd_cs6v81_spring.Queues.{
  ProducerPc, full_test, write_item, bump_tail, ConsumerPc, empty_test, read_item, bump_head, Queue,
  Pair, start, produce, consume, run,
}

-- 0, 1, …, n - 1.
abbrev pub up_to : ℕ → List ℕ
up_to zero = []
up_to (suc n) = up_to n ++ (n ∷ [])

abbrev pub cell : Queue → ℕ → ℕ
cell q k = get_or q.items (k % q.capacity) 0

-- What the place of each thread says of the queue.
abbrev pub Puts : Queue → ProducerPc → Type 0
Puts q full_test = Unit
Puts q write_item = q.tail < q.head + q.capacity
Puts q bump_tail = (q.tail < q.head + q.capacity) × (cell q q.tail ≡ q.tail)

abbrev pub Takes : Queue → ConsumerPc → Type 0
Takes q empty_test = Unit
Takes q read_item = q.head < q.tail
Takes q (bump_head x) = (q.head < q.tail) × (x ≡ q.head)

pub record Inv (s : Pair) : Type 0 where
  pub room : 0 < s.queue.capacity
  pub long : length s.queue.items ≡ s.queue.capacity
  pub above : s.queue.head ≤ s.queue.tail
  pub fits : s.queue.tail ≤ s.queue.head + s.queue.capacity
  pub count : s.sent ≡ s.queue.tail
  pub cells : (k : ℕ) → s.queue.head ≤ k → k < s.queue.tail → cell s.queue k ≡ k
  pub puts : Puts s.queue s.producer
  pub takes : Takes s.queue s.consumer
  pub got : s.received ≡ up_to s.queue.head

module _ {s : Pair} (inv : Inv s) where
  open inv use {room, long, above, fits, count, cells, puts, takes, got}

  abbrev written : List ℕ
  written = set s.queue.items (s.queue.tail % s.queue.capacity) s.sent

  in_range : s.queue.tail % s.queue.capacity < length s.queue.items
  in_range = rw long (mod-lt s.queue.tail room)

  written_here : get_or written (s.queue.tail % s.queue.capacity) 0 ≡ s.queue.tail
  written_here =
      get_or-set_self s.queue.items (s.queue.tail % s.queue.capacity) s.sent 0 in_range ∙ count

  -- A write for the next item leaves alone the cells of the items in the queue.
  written_others :
      (k : ℕ)
      → s.queue.tail < s.queue.head + s.queue.capacity
      → s.queue.head ≤ k
      → k < s.queue.tail
      → get_or written (k % s.queue.capacity) 0 ≡ k
  written_others k free low high =
      get_or-set_ne s.queue.items (s.queue.tail % s.queue.capacity) (k % s.queue.capacity) s.sent 0
        (λ e. absurd (
          omega (
            arith,
            mod_injective s.queue.capacity k s.queue.tail (omega arith) (omega arith) (sym e),
          )))
      ∙ cells k low high

  pub begin_write :
      s.queue.tail < s.queue.head + s.queue.capacity → Inv (record s { producer = write_item })
  begin_write free = record {
    room = room;
    long = long;
    above = above;
    fits = fits;
    count = count;
    cells = cells;
    puts = free;
    takes = takes;
    got = got;
  }

  pub begin_read : s.queue.head < s.queue.tail → Inv (record s { consumer = read_item })
  begin_read left = record {
    room = room;
    long = long;
    above = above;
    fits = fits;
    count = count;
    cells = cells;
    puts = puts;
    takes = left;
    got = got;
  }

  bumped : (x : ℕ) → x ≡ s.queue.head → s.received ++ (x ∷ []) ≡ up_to (s.queue.head + 1)
  bumped x e = rw (add-one, got, e) refl

  pub produce-Inv : (n : ℕ) (p : ProducerPc) → s.producer ≡ p → Inv (produce n s p)
  unfolding produce
  produce-Inv n full_test e = elim (Bool-cases (ltb s.sent n)) [
    | inr over ↦ rw over inv
    | inl more ↦ elim (Bool-cases (s.queue.tail - s.queue.head == s.queue.capacity)) [
      | inl full ↦ rw (more, full) inv
      | inr free ↦ rw (more, free) (begin_write (ground arith))
    ]
  ]
  produce-Inv n write_item e = record {
    room = room;
    long = length-set s.queue.items (s.queue.tail % s.queue.capacity) s.sent ∙ long;
    above = above;
    fits = fits;
    count = count;
    cells = λ k low high. written_others k (ground arith) low high;
    puts = (ground arith, written_here);
    takes = takes;
    got = got;
  }
  produce-Inv n bump_tail e = record {
    room = room;
    long = long;
    above = omega arith;
    fits = ground arith;
    count = omega arith;
    cells = λ k low high. elim (ℕ_discrete k s.queue.tail) [
      | yes same ↦ ground arith
      | no ne ↦ cells k low (omega arith)
    ];
    puts = tt;
    takes = ground arith;
    got = got;
  }

  pub consume-Inv : (c : ConsumerPc) → s.consumer ≡ c → Inv (consume s c)
  unfolding consume
  consume-Inv empty_test e = elim (Bool-cases (s.queue.tail == s.queue.head)) [
    | inl empty ↦ rw empty inv
    | inr some_left ↦ rw some_left (begin_read (ground arith))
  ]
  consume-Inv read_item e = record {
    room = room;
    long = long;
    above = above;
    fits = fits;
    count = count;
    cells = cells;
    puts = puts;
    takes = (ground arith, cells s.queue.head (omega arith) (ground arith));
    got = got;
  }
  consume-Inv (bump_head x) e = record {
    room = room;
    long = long;
    above = ground arith;
    fits = omega arith;
    count = count;
    cells = λ k low high. cells k (omega arith) high;
    puts = ground arith;
    takes = tt;
    got = bumped x (ground arith);
  }

pub start-Inv :
    (memory : List ℕ) (capacity : ℕ)
    → 0 < capacity
    → length memory ≡ capacity
    → Inv (start memory capacity)
unfolding start
start-Inv memory capacity room long = record {
  room = room;
  long = long;
  above = omega arith;
  fits = omega arith;
  count = refl;
  cells = λ k low high. absurd (omega arith);
  puts = tt;
  takes = tt;
  got = refl;
}

run-Inv : (n : ℕ) (s : Pair) (turns : List Bool) → Inv s → Inv (run n s turns)
unfolding run
run-Inv n s [] inv = inv
run-Inv n s (true ∷ turns) inv =
    run-Inv n (produce n s s.producer) turns (produce-Inv inv n s.producer refl)
run-Inv n s (false ∷ turns) inv =
    run-Inv n (consume s s.consumer) turns (consume-Inv inv s.consumer refl)

-- LockFreeQueue of one slot or more, with one producer and one consumer interleaved in any order: the
-- items that the consumer has got are 0, 1, 2, … in this order, as many as `head_` says, none of them
-- lost or taken twice; and there are never more than `capacity` items in the queue.
pub in_order :
    (memory : List ℕ) (capacity n : ℕ) (turns : List Bool)
    → 0 < capacity
    → length memory ≡ capacity
    → let s = run n (start memory capacity) turns in
      (s.received ≡ up_to s.queue.head)
      × (s.queue.head ≤ s.queue.tail)
      × (s.queue.tail ≤ s.queue.head + s.queue.capacity)
      × (s.sent ≡ s.queue.tail)
in_order memory capacity n turns room long =
    let inv = run-Inv n (start memory capacity) turns (start-Inv memory capacity room long) in
    (inv.got, inv.above, inv.fits, inv.count)
