-- ===== src/Harness/Two/Totals.antt =====
-- The totals of testtwo.
use utd_cs6v81_spring.Base.{
  ℕ, ◌+◌, ◌-◌, ◌%◌, ◌^◌, ◌<◌, ◌≡◌, refl, ap, sym, ◌⊎◌, Bool, true, some, List, [], ◌∷◌, length,
  Bool-cases, inl, inr, arith, if◌then◌else◌,
}
use utd_cs6v81_spring.Base.Family.{Within, update, tally, tally-update, tally_const, tally_same}
use utd_cs6v81_spring.Times.{Timespec, less}
use utd_cs6v81_spring.Harness.Rounds.{
  Input, round, leftover, round-balance, round-pushcount, leftover-length,
}
use utd_cs6v81_spring.Harness.Two.{
  Place, waiting, looping, add_push, add_pop, add_allocs, finished, Worker, Shared, act, State,
  step, run, start, finish,
}

abbrev pub pushes : Worker → ℕ
pushes w = w.counts.pushcount

abbrev pub pops : Worker → ℕ
pops w = w.counts.popcount

-- What a worker has added to the totals so far.
abbrev added_push : Worker → Place → ℕ
added_push w add_pop = pushes w
added_push w add_allocs = pushes w
added_push w finished = pushes w
added_push w _ = 0

abbrev added_pop : Worker → Place → ℕ
added_pop w add_allocs = pops w
added_pop w finished = pops w
added_pop w _ = 0

abbrev added_allocs : Worker → Place → ℕ
added_allocs w finished = pushes w
added_allocs w _ = 0

abbrev credit : (Worker → Place → ℕ) → Worker → ℕ
credit f w = f w w.place

-- A total, modulo 2 ^ 64, follows a sum of which one summand changes from `c` to `c'`.
abbrev Follows : (total total' c c' : ℕ) → Type 0
Follows total total' c c' = (a b : ℕ) → total ≡ a % 2 ^ 64 → b + c ≡ a + c' → total' ≡ b % 2 ^ 64

Follows-same : (total c c' : ℕ) → c ≡ c' → Follows total total c c'
Follows-same total c c' e a b h k = let same : b ≡ a = omega arith in rw same h

Follows-add : (total c c' d : ℕ) → c ≡ 0 → c' ≡ d → Follows total ((total + d) % 2 ^ 64) c c'
Follows-add total c c' d e e' a b h k = omega arith

-- `globalstack` has been set if the worker has started.
abbrev HasStarted : Shared → Worker → Type 0
HasStarted s w = (w.place ≡ waiting) ⊎ (s.globalstack ≡ true)

-- A step of one worker, from `s` and `w` to `s'` and `w'`.
record Moved (s : Shared) (w : Worker) (s' : Shared) (w' : Worker) : Type 0 where
  balance : length s'.stack + pops w' + pushes w ≡ length s.stack + pops w + pushes w'
  push : Follows s.totalpushcount s'.totalpushcount (credit added_push w) (credit added_push w')
  pop : Follows s.totalpopcount s'.totalpopcount (credit added_pop w) (credit added_pop w')
  allocs : Follows s.total_allocs s'.total_allocs (credit added_allocs w) (credit added_allocs w')
  alloced : w'.allocs ≡ pushes w'
  set : HasStarted s w → HasStarted s' w'
  stays : s.globalstack ≡ true → s'.globalstack ≡ true

-- A step that leaves the totals and the counts.
idle_Moved :
    (s s' : Shared) (w w' : Worker)
    → s'.stack ≡ s.stack
    → s'.totalpushcount ≡ s.totalpushcount
    → s'.totalpopcount ≡ s.totalpopcount
    → s'.total_allocs ≡ s.total_allocs
    → pops w' ≡ pops w
    → pushes w' ≡ pushes w
    → w'.allocs ≡ pushes w
    → credit added_push w ≡ credit added_push w'
    → credit added_pop w ≡ credit added_pop w'
    → credit added_allocs w ≡ credit added_allocs w'
    → (HasStarted s w → HasStarted s' w')
    → (s.globalstack ≡ true → s'.globalstack ≡ true)
    → Moved s w s' w'
idle_Moved s s' w w' st a b c d e h f g k set stays = record {
  set = set;
  stays = stays;
  balance = omega (arith, ap length st);
  push = rw a (Follows-same _ _ _ f);
  pop = rw b (Follows-same _ _ _ g);
  allocs = rw c (Follows-same _ _ _ k);
  alloced = omega arith;
}

looping_Moved :
    (s : Shared) (w w' : Worker) (tid : ℕ) (heads : Bool)
    → w.place ≡ looping
    → w.allocs ≡ pushes w
    → w'.counts ≡ (round tid heads s.stack w.counts).1
    → w'.allocs ≡ (if heads then w.allocs + 1 else w.allocs)
    → (w'.place ≡ looping) ⊎ (w'.place ≡ add_push)
    → Moved s w (record s { stack = (round tid heads s.stack w.counts).0 }) w'
looping_Moved s w w' tid heads e h c al pl = record {
  balance = rw c (round-balance tid heads s.stack w.counts);
  push = Follows-same _ _ _ (ground (arith, e, pl));
  pop = Follows-same _ _ _ (ground (arith, e, pl));
  allocs = Follows-same _ _ _ (ground (arith, e, pl));
  set = λ q. ground (arith, e, q);
  stays = λ q. q;
  alloced = rw (c, round-pushcount tid heads s.stack w.counts) (ground arith);
}

module _ (starttime stoptime : Timespec) where
  act-Moved :
      (tid : ℕ) (s : Shared) (w : Worker) (p : Place) (x : Input)
      → w.place ≡ p
      → w.allocs ≡ pushes w
      → let (s', w') = act starttime stoptime tid s w p x in Moved s w s' w'
  unfolding act
  act-Moved tid s w waiting x e h = elim (Bool-cases (less x.now starttime)) [
    | inl early ↦
        rw early
          (idle_Moved s s w w refl refl refl refl refl refl h refl refl refl (λ q. q) (λ q. q))
    | inr late ↦ rw late (
        idle_Moved s _ w _ refl refl refl refl refl refl h (ground (arith, e)) (ground (arith, e))
          (ground (arith, e)) (λ q. inr refl) (λ q. refl))
  ]
  act-Moved tid s w looping x e h = looping_Moved s w _ tid x.heads e h refl refl (ground arith)
  act-Moved tid s w add_push x e h = record {
    balance = omega arith;
    push = Follows-add _ _ _ _ (ground (arith, e)) refl;
    pop = Follows-same _ _ _ (ground (arith, e));
    allocs = Follows-same _ _ _ (ground (arith, e));
    alloced = h;
    set = λ q. ground (arith, e, q);
    stays = λ q. q;
  }
  act-Moved tid s w add_pop x e h = record {
    balance = omega arith;
    push = Follows-same _ _ _ (ground (arith, e));
    pop = Follows-add _ _ _ _ (ground (arith, e)) refl;
    allocs = Follows-same _ _ _ (ground (arith, e));
    alloced = h;
    set = λ q. ground (arith, e, q);
    stays = λ q. q;
  }
  act-Moved tid s w add_allocs x e h = record {
    balance = omega arith;
    push = Follows-same _ _ _ (ground (arith, e));
    pop = Follows-same _ _ _ (ground (arith, e));
    allocs = Follows-add _ _ _ _ (ground (arith, e)) (sym h);
    alloced = h;
    set = λ q. ground (arith, e, q);
    stays = λ q. q;
  }
  act-Moved tid s w finished x e h =
      idle_Moved s s w w refl refl refl refl refl refl h refl refl refl (λ q. q) (λ q. q)

record Inv (n : ℕ) (s : Shared) (worker : ℕ → Worker) : Type 0 where
  balance : length s.stack + tally pops n worker ≡ tally pushes n worker
  push : s.totalpushcount ≡ tally (credit added_push) n worker % 2 ^ 64
  pop : s.totalpopcount ≡ tally (credit added_pop) n worker % 2 ^ 64
  allocs : s.total_allocs ≡ tally (credit added_allocs) n worker % 2 ^ 64
  alloced : (i : ℕ) → i < n → (worker i).allocs ≡ pushes (worker i)
  set : (i : ℕ) → i < n → HasStarted s (worker i)

Moved-Inv :
    (n : ℕ) (s s' : Shared) (worker : ℕ → Worker) (i : ℕ) (w' : Worker)
    → i < n
    → Inv n s worker
    → Moved s (worker i) s' w'
    → Inv n s' (update worker i w')
Moved-Inv n s s' worker i w' b inv m =
    let swap = λ (f : Worker → ℕ). tally-update f n worker i w' b in
    record {
      balance = omega (arith, swap pops, swap pushes, m.balance, inv.balance);
      push = m.push _ _ inv.push (swap (credit added_push));
      pop = m.pop _ _ inv.pop (swap (credit added_pop));
      allocs = m.allocs _ _ inv.allocs (swap (credit added_allocs));
      alloced = λ j q. ground (arith, m.alloced, inv.alloced j q);
      set = λ j q. ground (arith, m.set (inv.set i b), m.stays, inv.set j q);
    }

module _ (starttime stoptime : Timespec) (n : ℕ) where
  run-Inv :
      (s : State starttime stoptime) (turns : List (ℕ × Input))
      → Within n turns
      → Inv n s.shared s.worker
      → Inv n (run starttime stoptime s turns).shared (run starttime stoptime s turns).worker
  unfolding run step
  run-Inv s [] b inv = inv
  run-Inv s ((i, x) ∷ turns) b inv =
      let w = s.worker i in
      let m = act-Moved starttime stoptime i s.shared w w.place x refl (inv.alloced i b.0) in
      run-Inv (step starttime stoptime s i x) turns b.1
        (Moved-Inv n s.shared _ s.worker i _ b.0 inv m)

  start-Inv : Inv n (start starttime stoptime).shared (start starttime stoptime).worker
  start-Inv =
      let none_yet =
        λ (f : Worker → ℕ) (h : (i : ℕ) → i < n → f ((start starttime stoptime).worker i) ≡ 0).
          tally_const f 0 n (start starttime stoptime).worker h in
      record {
        balance = omega (arith, none_yet pops (λ i b. refl), none_yet pushes (λ i b. refl));
        push = omega (arith, none_yet (credit added_push) (λ i b. refl));
        pop = omega (arith, none_yet (credit added_pop) (λ i b. refl));
        allocs = omega (arith, none_yet (credit added_allocs) (λ i b. refl));
        alloced = λ i b. refl;
        set = λ i b. inl refl;
      }

-- What the totals hold once every worker has added its counts.
all_added :
    (n : ℕ) (worker : ℕ → Worker) (added : Worker → Place → ℕ) (count : Worker → ℕ)
    → ((w : Worker) → w.place ≡ finished → credit added w ≡ count w)
    → ((i : ℕ) → i < n → (worker i).place ≡ finished)
    → tally (credit added) n worker ≡ tally count n worker
all_added n worker added count same done =
    tally_same (credit added) count n worker (λ i b. same (worker i) (done i b))

finish_as :
    (s : Shared) (a b c : ℕ)
    → s.globalstack ≡ true
    → (s.totalpushcount + s.totalpopcount) % 2 ^ 64 ≡ a
    → s.total_allocs ≡ b
    → leftover s.stack 0 ≡ c
    → finish s ≡ some (record { operations = a; allocations = b; left_over = c })
unfolding finish
finish_as s a b c set ea eb ec = rw (set, ea, eb, ec) refl

-- testtwo without USE_GC, with one thread or more, interleaved in any way, once every worker has
-- ended: `main` prints the number of the pushes and of the pops that returned a node, modulo 2 ^ 64,
-- and the number of the pushes for the allocations; it counts as many nodes left over as pushes
-- exceed pops, which are on the stack. The two totals hold these numbers.
pub testtwo_prints :
    (starttime stoptime : Timespec) (n : ℕ) (turns : List (ℕ × Input))
    → 0 < n
    → Within n turns
    → ((i : ℕ)
        → i < n
        → ((run starttime stoptime (start starttime stoptime) turns).worker i).place ≡ finished)
    → let s = run starttime stoptime (start starttime stoptime) turns in
      let pushed = tally pushes n s.worker in
      let popped = tally pops n s.worker in
      (length s.shared.stack + popped ≡ pushed)
      × (s.shared.totalpushcount ≡ pushed % 2 ^ 64)
      × (s.shared.totalpopcount ≡ popped % 2 ^ 64)
      × (finish s.shared
          ≡ some (record {
            operations = (pushed + popped) % 2 ^ 64;
            allocations = pushed % 2 ^ 64;
            left_over = (pushed - popped) % 2 ^ 64;
          }))
testtwo_prints starttime stoptime n turns some_thread b done =
    let s = run starttime stoptime (start starttime stoptime) turns in
    let inv =
      run-Inv starttime stoptime n (start starttime stoptime) turns b
        (start-Inv starttime stoptime n) in
    let push = all_added n s.worker added_push pushes (λ w e. ground (arith, e)) done in
    let pop = all_added n s.worker added_pop pops (λ w e. ground (arith, e)) done in
    let allocs = all_added n s.worker added_allocs pushes (λ w e. ground (arith, e)) done in
    let ready : s.shared.globalstack ≡ true =
      ground (arith, inv.set 0 some_thread, done 0 some_thread) in
    let remain = leftover-length s.shared.stack 0 in
    (
      inv.balance,
      omega (arith, inv.push, push),
      omega (arith, inv.pop, pop),
      finish_as s.shared _ _ _ ready (omega (arith, inv.push, inv.pop, push, pop))
          (omega (arith, inv.allocs, allocs)) (omega (arith, remain, inv.balance)),
    )
