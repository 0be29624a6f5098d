-- ===== src/Harness/One/Totals.antt =====
-- The totals of testone.
use mathlib.Core.Logic.{ite}
use utd_cs6v81_spring.Base.{
  ℕ, ◌+◌, ◌-◌, ◌*◌, ◌%◌, ◌^◌, ◌≤◌, ◌<◌, ◌≡◌, refl, ap, Bool, true, ◌⊎◌, some, List, [], ◌∷◌, length,
  Bool-cases, inl, inr, ltb, ltb→lt, ℕ_discrete, arith,
}
use utd_cs6v81_spring.Base.Family.{
  Within, update, tally, tally-update, tally_const, tally_same, tally_add,
}
use utd_cs6v81_spring.Times.{Timespec, less}
use utd_cs6v81_spring.Harness.Rounds.{
  Input, round, leftover, round-balance, round-rounds, leftover-length,
}
use utd_cs6v81_spring.Harness.One.{
  Place, waiting, looping, load_push, store_push, load_pop, store_pop, finished, Worker, Shared,
  rounds, act, State, step, run, start, finish,
}

abbrev pub pushes : Worker → ℕ
pushes w = w.counts.pushcount

abbrev pub pops : Worker → ℕ
pops w = w.counts.popcount

-- What a worker has written into the totals so far, if no write has been lost.
abbrev added_push : Worker → Place → ℕ
added_push w load_pop = pushes w
added_push w (store_pop v) = pushes w
added_push w finished = pushes w
added_push w _ = 0

abbrev added_pop : Worker → Place → ℕ
added_pop w finished = pops w
added_pop w _ = 0

abbrev credit_push : Worker → ℕ
credit_push w = added_push w w.place

abbrev credit_pop : Worker → ℕ
credit_pop w = added_pop w w.place

-- A value that a worker has read is not above the sums of what has been written.
abbrev Read : (push pop : ℕ) → Place → Type 0
Read push pop (store_push v) = v ≤ push
Read push pop (store_pop v) = v ≤ pop
Read push pop p = Unit

Read-mono : (a b c d : ℕ) (p : Place) → a ≤ c → b ≤ d → Read a b p → Read c d p
Read-mono a b c d waiting h k r = tt
Read-mono a b c d looping h k r = tt
Read-mono a b c d load_push h k r = tt
Read-mono a b c d (store_push v) h k r = omega (arith, r)
Read-mono a b c d load_pop h k r = tt
Read-mono a b c d (store_pop v) h k r = omega (arith, r)
Read-mono a b c d finished h k r = tt

-- How far a worker has come.
abbrev Rounds : Worker → Place → Type 0
Rounds w waiting = w.counts.i ≤ rounds
Rounds w looping = w.counts.i ≤ rounds
Rounds w p = w.counts.i ≡ rounds

abbrev HasStarted : Shared → Place → Type 0
HasStarted s p = (p ≡ waiting) ⊎ (s.globalstack ≡ true)

-- What a worker in place `p` keeps true, for sums `push` and `pop` of what has been written.
record Good (push pop : ℕ) (s : Shared) (w : Worker) (p : Place) : Type 0 where
  at : w.place ≡ p
  counted : pushes w + pops w ≡ w.counts.i
  progress : Rounds w p
  read : Read push pop p
  set : HasStarted s p

-- A step of one worker.
record Moved (push pop : ℕ) (s : Shared) (w : Worker) (s' : Shared) (w' : Worker) : Type 0 where
  balance : length s'.stack + pops w' + pushes w ≡ length s.stack + pops w + pushes w'
  more_push : credit_push w ≤ credit_push w'
  more_pop : credit_pop w ≤ credit_pop w'
  push_bound : s'.totalpushcount + credit_push w ≤ push + credit_push w'
  pop_bound : s'.totalpopcount + credit_pop w ≤ pop + credit_pop w'
  good : Good push pop s' w' w'.place
  stays : s.globalstack ≡ true → s'.globalstack ≡ true

-- A step that leaves the stack and the counts.
module _ (push pop : ℕ) (s : Shared) (w : Worker) (p : Place) (g : Good push pop s w p) where
  still :
      (s' : Shared) (p' : Place)
      → s'.stack ≡ s.stack
      → (s.globalstack ≡ true → s'.globalstack ≡ true)
      → HasStarted s' p'
      → Rounds w p'
      → Read push pop p'
      → added_push w p ≤ added_push w p'
      → added_pop w p ≤ added_pop w p'
      → s'.totalpushcount + added_push w p ≤ push + added_push w p'
      → s'.totalpopcount + added_pop w p ≤ pop + added_pop w p'
      → Moved push pop s w s' (record w { place = p' })
  still s' p' st stays set progress read more_push more_pop push_bound pop_bound = record {
    balance = omega (arith, ap length st);
    more_push = rw (g.at) more_push;
    more_pop = rw (g.at) more_pop;
    push_bound = rw (g.at) push_bound;
    pop_bound = rw (g.at) pop_bound;
    good = record { at = refl; counted = g.counted; progress = progress; read = read; set = set };
    stays = stays;
  }

  -- A step that changes nothing.
  same : s.totalpushcount ≤ push → s.totalpopcount ≤ pop → Moved push pop s w s w
  same a b = record {
    balance = omega arith;
    more_push = omega arith;
    more_pop = omega arith;
    push_bound = omega (arith, a);
    pop_bound = omega (arith, b);
    good = record {
      at = refl;
      counted = g.counted;
      progress = rw (g.at) (g.progress);
      read = rw (g.at) (g.read);
      set = rw (g.at) (g.set);
    };
    stays = λ q. q;
  }

-- A round of the main loop.
round-Moved :
    (tid push pop : ℕ) (heads : Bool) (s : Shared) (w : Worker)
    → s.totalpushcount ≤ push
    → s.totalpopcount ≤ pop
    → w.counts.i < rounds
    → Good push pop s w looping
    → let (stack, counts) = round tid heads s.stack w.counts in
      Moved push pop s w (record s { stack = stack }) (record w { counts = counts })
round-Moved tid push pop heads s w a b early g =
    let (one, counted) = round-rounds tid heads s.stack w.counts in
    record {
      balance = round-balance tid heads s.stack w.counts;
      more_push = ground (arith, g.at);
      more_pop = ground (arith, g.at);
      push_bound = ground (arith, g.at);
      pop_bound = ground (arith, g.at);
      good = record {
        at = refl;
        counted = omega (arith, counted, g.counted);
        progress = rw (g.at) (omega (arith, one));
        read = rw (g.at) tt;
        set = ground (arith, g.set, g.at);
      };
      stays = λ q. q;
    }

module _ (starttime : Timespec) where
  act-Moved :
      (tid push pop : ℕ) (s : Shared) (w : Worker) (p : Place) (x : Input)
      → s.totalpushcount ≤ push
      → s.totalpopcount ≤ pop
      → Good push pop s w p
      → let (s', w') = act starttime tid s w p x in Moved push pop s w s' w'
  unfolding act
  act-Moved tid push pop s w waiting x a b g = elim (Bool-cases (less x.now starttime)) [
    | inl early ↦ rw early (same push pop s w waiting g a b)
    | inr late ↦ rw late (
        still push pop s w waiting g _ looping refl (λ q. refl) (inr refl) g.progress tt
          (omega arith) (omega arith) (omega arith) (omega arith))
  ]
  act-Moved tid push pop s w looping x a b g = elim (Bool-cases (ltb w.counts.i rounds)) [
    | inl early ↦ rw early (round-Moved tid push pop x.heads s w a b (ltb→lt _ _ early) g)
    | inr late ↦ rw late (
        still push pop s w looping g _ load_push refl (λ q. q) (ground (arith, g.set))
          (ground (arith, g.progress)) tt (omega arith) (omega arith) (omega arith) (omega arith))
  ]
  act-Moved tid push pop s w load_push x a b g =
      still push pop s w load_push g _ (store_push s.totalpushcount) refl (λ q. q)
        (ground (arith, g.set)) g.progress a (omega arith) (omega arith) (omega arith) (omega arith)
  act-Moved tid push pop s w (store_push v) x a b g =
      still push pop s w (store_push v) g _ load_pop refl (λ q. q) (ground (arith, g.set))
        g.progress tt (omega arith) (omega arith) (omega (arith, g.read)) (omega arith)
  act-Moved tid push pop s w load_pop x a b g =
      still push pop s w load_pop g _ (store_pop s.totalpopcount) refl (λ q. q)
        (ground (arith, g.set)) g.progress b (omega arith) (omega arith) (omega arith) (omega arith)
  act-Moved tid push pop s w (store_pop v) x a b g =
      still push pop s w (store_pop v) g _ finished refl (λ q. q) (ground (arith, g.set)) g.progress
        tt (omega arith) (omega arith) (omega arith) (omega (arith, g.read))
  act-Moved tid push pop s w finished x a b g = same push pop s w finished g a b

record Inv (n : ℕ) (s : Shared) (worker : ℕ → Worker) : Type 0 where
  balance : length s.stack + tally pops n worker ≡ tally pushes n worker
  push : s.totalpushcount ≤ tally credit_push n worker
  pop : s.totalpopcount ≤ tally credit_pop n worker
  good :
      (i : ℕ)
      → i < n
      → Good (tally credit_push n worker) (tally credit_pop n worker) s (worker i) (worker i).place

Moved-Inv :
    (n : ℕ) (s s' : Shared) (worker : ℕ → Worker) (i : ℕ) (w' : Worker)
    → i < n
    → Inv n s worker
    → Moved (tally credit_push n worker) (tally credit_pop n worker) s (worker i) s' w'
    → Inv n s' (update worker i w')
Moved-Inv n s s' worker i w' b inv m =
    let swap = λ (f : Worker → ℕ). tally-update f n worker i w' b in
    let push = swap credit_push in
    let pop = swap credit_pop in
    let later = λ (q : Place).
      Read-mono (tally credit_push n worker) (tally credit_pop n worker)
        (tally credit_push n (update worker i w')) (tally credit_pop n (update worker i w')) q
        (omega (arith, push, m.more_push)) (omega (arith, pop, m.more_pop)) in
    record {
      balance = omega (arith, swap pops, swap pushes, m.balance, inv.balance);
      push = omega (arith, push, m.push_bound);
      pop = omega (arith, pop, m.pop_bound);
      good = λ j q.
          elim (ℕ_discrete i j)
            as (λ d.
              Good (tally credit_push n (update worker i w'))
                (tally credit_pop n (update worker i w')) s' (ite d w' (worker j))
                (ite d w' (worker j)).place) [
                  | yes e ↦ record {
                    at = refl;
                    counted = m.good.counted;
                    progress = m.good.progress;
                    read = later w'.place m.good.read;
                    set = m.good.set;
                  }
                  | no e ↦
                      let g = inv.good j q in
                      record {
                        at = refl;
                        counted = g.counted;
                        progress = g.progress;
                        read = later (worker j).place g.read;
                        set = ground (arith, g.set, m.stays);
                      }
                ];
    }

module _ (starttime : Timespec) (n : ℕ) where
  run-Inv :
      (s : State starttime) (turns : List (ℕ × Input))
      → Within n turns
      → Inv n s.shared s.worker
      → Inv n (run starttime s turns).shared (run starttime s turns).worker
  unfolding run step
  run-Inv s [] b inv = inv
  run-Inv s ((i, x) ∷ turns) b inv =
      let w = s.worker i in
      let m = act-Moved starttime i _ _ s.shared w w.place x inv.push inv.pop (inv.good i b.0) in
      run-Inv (step starttime s i x) turns b.1 (Moved-Inv n s.shared _ s.worker i _ b.0 inv m)

  start-Inv : Inv n (start starttime).shared (start starttime).worker
  start-Inv =
      let worker = (start starttime).worker in
      record {
        balance = omega (
          arith,
          tally_const pops 0 n worker (λ i b. refl),
          tally_const pushes 0 n worker (λ i b. refl),
        );
        push = omega arith;
        pop = omega arith;
        good = λ i b. record {
          at = refl;
          counted = omega arith;
          progress = omega arith;
          read = tt;
          set = inl refl;
        };
      }

finish_as :
    (s : Shared) (a b : ℕ)
    → s.globalstack ≡ true
    → (s.totalpushcount + s.totalpopcount) % 2 ^ 64 ≡ a
    → leftover s.stack 0 ≡ b
    → finish s ≡ some (record { operations = a; left_over = b })
unfolding finish
finish_as s a b set ea eb = rw (set, ea, eb) refl

-- What a worker that has ended knows.
ended_rounds :
    (push pop : ℕ) (s : Shared) (w : Worker)
    → Good push pop s w w.place
    → w.place ≡ finished
    → (pushes w + pops w ≡ rounds) × (s.globalstack ≡ true)
ended_rounds push pop s w g e = ground (arith, g.counted, g.progress, g.set, e)

-- testone, with one thread or more, fewer than 2 ^ 32, interleaved in any way, once every worker
-- has ended: they have made 10000 pushes and pops that returned a node for each thread, and as many
-- nodes are on the stack as pushes exceed pops; the two totals are at most the pushes and the pops,
-- and `main` prints their sum, and counts the nodes on the stack.
pub testone_prints :
    (starttime : Timespec) (n : ℕ) (turns : List (ℕ × Input))
    → 0 < n
    → n < 2 ^ 32
    → Within n turns
    → ((i : ℕ) → i < n → ((run starttime (start starttime) turns).worker i).place ≡ finished)
    → let s = run starttime (start starttime) turns in
      let pushed = tally pushes n s.worker in
      let popped = tally pops n s.worker in
      (length s.shared.stack + popped ≡ pushed)
      × (pushed + popped ≡ n * rounds)
      × (s.shared.totalpushcount ≤ pushed)
      × (s.shared.totalpopcount ≤ popped)
      × (finish s.shared
          ≡ some (record {
            operations = s.shared.totalpushcount + s.shared.totalpopcount;
            left_over = pushed - popped;
          }))
testone_prints starttime n turns some_thread few b done =
    let s = run starttime (start starttime) turns in
    let inv = run-Inv starttime n (start starttime) turns b (start-Inv starttime n) in
    let ended = λ (i : ℕ) (q : i < n).
      ended_rounds (tally credit_push n s.worker) (tally credit_pop n s.worker) s.shared
        (s.worker i) (inv.good i q) (done i q) in
    let all : tally (λ w. pushes w + pops w) n s.worker ≡ n * rounds =
      tally_const (λ w. pushes w + pops w) rounds n s.worker (λ i q. (ended i q).0) in
    let split = tally_add pushes pops n s.worker in
    let push : tally credit_push n s.worker ≡ tally pushes n s.worker =
      tally_same credit_push pushes n s.worker (λ i q. ap (added_push (s.worker i)) (done i q)) in
    let pop : tally credit_pop n s.worker ≡ tally pops n s.worker =
      tally_same credit_pop pops n s.worker (λ i q. ap (added_pop (s.worker i)) (done i q)) in
    (
      inv.balance,
      omega (arith, all, split),
      omega (arith, inv.push, push),
      omega (arith, inv.pop, pop),
      finish_as s.shared _ _ (ended 0 some_thread).1
          (omega (arith, inv.push, inv.pop, push, pop, all, split, few))
          (omega (arith, leftover-length s.shared.stack 0, inv.balance, all, split, few)),
    )
