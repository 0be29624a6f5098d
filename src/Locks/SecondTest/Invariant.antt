-- ===== src/Locks/SecondTest/Invariant.antt =====
-- What holds of the test at every moment, over any lock that excludes.
use utd_cs6v81_spring.Base.{
  ℕ, ◌+◌, ◌%◌, ◌^◌, ◌≤◌, ◌<◌, ◌≡◌, refl, true, Option, none, some, List, [], ◌∷◌, arith, length,
  Bool-cases, inl, inr,
}
use utd_cs6v81_spring.Base.Family.{Within, update, tally, tally-update, tally_const}
use utd_cs6v81_spring.Times.{Timespec, ts_lt}
use utd_cs6v81_spring.Locks.Algorithm.{
  Algorithm, Phase, outside, locking, inside, unlocking, is_inside, Threads, move, step, run, calls,
  calling, Excludes,
}
use utd_cs6v81_spring.Locks.SimpleTest.Invariant.{Trace, step-Trace, weaken}
use utd_cs6v81_spring.Locks.SecondTest.{
  Place, waiting, checking, timing, ready, loaded, stored, counting, adding, finished, Work, Client,
  with_work, outside_act, inside_act, act, client_step, client_run, client_start,
}

-- The increments of the counter that a thread has written and not yet counted as its own.
abbrev pub pending : Place → ℕ
pending stored = 1
pending counting = 1
pending p = 0

abbrev pub written : Work → ℕ
written w = w.tcounter + pending w.place

module _ {L U : Type 0} where
  -- How the lock and the place of one thread stand together.
  abbrev pub Agree : ℕ → Phase L U → Place → Type 0
  Agree counter outside waiting = Unit
  Agree counter outside checking = Unit
  Agree counter outside counting = Unit
  Agree counter outside adding = Unit
  Agree counter outside finished = Unit
  Agree counter (locking l) timing = Unit
  Agree counter inside timing = Unit
  Agree counter inside ready = Unit
  Agree counter inside (loaded v) = v ≡ counter
  Agree counter inside stored = Unit
  Agree counter (unlocking u) stored = Unit
  Agree counter p q = ⊥

module _ (a : Algorithm) (n : ℕ) where
  -- `k` bounds the calls of `lock` so far.
  pub record Inv (k : ℕ) (s : Client a) : Type 0 where
    pub trace : Trace a n s.lock k
    pub exact : s.counter ≡ tally written n s.work % 2 ^ 64
    pub agree : (i : ℕ) → i < n → Agree s.counter (s.lock.phase i) (s.work i).place

  calling-le : (p : Phase a.Locking a.Unlocking) → calling p ≤ 1
  calling-le p = ground arith

  step_phase :
      (l : Threads a) (i : ℕ) (q : Phase a.Locking a.Unlocking)
      → (move a l.shared (l.phase i)).1 ≡ q
      → (step a l i).phase i ≡ q
  unfolding step
  step_phase l i q e = ground (arith, e)

  module _ {k : ℕ} {s : Client a} (inv : Inv k s) (i : ℕ) (lt : i < n) where
    later : Inv (k + 1) s
    later = record {
      trace = weaken a n (omega arith) inv.trace;
      exact = inv.exact;
      agree = inv.agree;
    }

    -- A step of the lock's methods, with a change of the thread's own place or without.
    lock_Inv :
        (q : Phase a.Locking a.Unlocking) (w : Work)
        → (move a s.lock.shared (s.lock.phase i)).1 ≡ q
        → written w ≡ written (s.work i)
        → Agree s.counter q w.place
        → Inv (k + 1) (record s { lock = step a s.lock i; work = update s.work i w })
    unfolding step
    lock_Inv q w e same ok = record {
      trace =
          weaken a n (omega (arith, calling-le (s.lock.phase i))) (step-Trace a n i lt inv.trace);
      exact = omega (arith, inv.exact, tally-update written n s.work i w lt, same);
      agree = λ j h. ground (arith, inv.agree j h);
    }

    -- The same where the thread's locals stay as they are.
    plain_Inv :
        (q : Phase a.Locking a.Unlocking)
        → (move a s.lock.shared (s.lock.phase i)).1 ≡ q
        → Agree s.counter q (s.work i).place
        → Inv (k + 1) (record s { lock = step a s.lock i })
    unfolding step
    plain_Inv q e ok = record {
      trace =
          weaken a n (omega (arith, calling-le (s.lock.phase i))) (step-Trace a n i lt inv.trace);
      exact = inv.exact;
      agree = λ j h. ground (arith, inv.agree j h);
    }

    -- A step of the thread on its own locals.
    own_Inv :
        (w : Work)
        → written w % 2 ^ 64 ≡ written (s.work i) % 2 ^ 64
        → Agree s.counter (s.lock.phase i) w.place
        → Inv (k + 1) (with_work a s i w)
    own_Inv w same ok = record {
      trace = weaken a n (omega arith) inv.trace;
      exact = omega (arith, inv.exact, tally-update written n s.work i w lt, same);
      agree = λ j h. ground (arith, inv.agree j h);
    }

    outside_Inv :
        (start stop now : Timespec) (p : Place)
        → s.lock.phase i ≡ outside
        → (s.work i).place ≡ p
        → Inv (k + 1) (outside_act a start stop s i (s.work i) p now)
    unfolding outside_act move
    outside_Inv start stop now waiting at e = elim (Bool-cases (ts_lt now start)) [
      | inl early ↦ rw early later
      | inr begun ↦ rw begun (own_Inv _ (rw e refl) (rw at tt))
    ]
    outside_Inv start stop now checking at e = elim (Bool-cases (ts_lt (s.work i).lock2 stop)) [
      | inl more ↦
          rw more (lock_Inv (locking (a.enter s.lock.shared)) _ (rw at refl) (rw e refl) tt)
      | inr over ↦ rw over (own_Inv _ (rw e refl) (rw at tt))
    ]
    outside_Inv start stop now counting at e = own_Inv _ (rw e (omega arith)) (rw at tt)
    outside_Inv start stop now adding at e = own_Inv _ (rw e refl) (rw at tt)
    outside_Inv start stop now timing at e = later
    outside_Inv start stop now ready at e = later
    outside_Inv start stop now (loaded v) at e = later
    outside_Inv start stop now stored at e = later
    outside_Inv start stop now finished at e = later

    module _ (x : Excludes a n) (small : k < 2 ^ 64) where
      alone : s.lock.phase i ≡ inside → (j : ℕ) → j < n → is_inside (s.lock.phase j) ≡ true → i ≡ j
      alone at j h in_j =
          x.exclusive inv.trace.schedule i j inv.trace.below (omega (arith, inv.trace.few)) lt h
            (rw (inv.trace.leads, at)) (rw inv.trace.leads in_j)

      -- Only this thread is inside, so no other holds a value of the counter.
      store_Inv :
          (v : ℕ)
          → s.lock.phase i ≡ inside
          → (s.work i).place ≡ loaded v
          → Inv (k + 1) (record s {
            counter = (v + 1) % 2 ^ 64;
            work = update s.work i (record (s.work i) { place = stored });
          })
      store_Inv v at e =
          let w : Work = record (s.work i) { place = stored } in
          record {
            trace = weaken a n (omega arith) inv.trace;
            exact = ground (arith, inv.exact, inv.agree i lt, tally-update written n s.work i w lt);
            agree = λ j h. ground (arith, inv.agree j h, inv.agree i lt, alone at j h);
          }

      inside_Inv :
          (now : Timespec) (p : Place)
          → s.lock.phase i ≡ inside
          → (s.work i).place ≡ p
          → Inv (k + 1) (inside_act a s i (s.work i) p now)
      unfolding inside_act move
      inside_Inv now timing at e = own_Inv _ (rw e refl) (rw at tt)
      inside_Inv now ready at e = own_Inv _ (rw e refl) (rw at refl)
      inside_Inv now (loaded v) at e = store_Inv v at e
      inside_Inv now stored at e = plain_Inv (unlocking a.leave) (rw at refl) (rw e tt)
      inside_Inv now waiting at e = later
      inside_Inv now checking at e = later
      inside_Inv now counting at e = later
      inside_Inv now adding at e = later
      inside_Inv now finished at e = later

    locking_Inv :
        (l : a.Locking) (o : Option a.Locking)
        → s.lock.phase i ≡ locking l
        → (a.lock_step s.lock.shared l).1 ≡ o
        → Inv (k + 1) (record s { lock = step a s.lock i })
    unfolding move
    locking_Inv l none at e = plain_Inv inside (rw (at, move, e)) (ground (arith, inv.agree i lt))
    locking_Inv l (some l') at e =
        plain_Inv (locking l') (rw (at, move, e)) (ground (arith, inv.agree i lt))

    unlocking_Inv :
        (u : a.Unlocking) (o : Option a.Unlocking) (start stop now : Timespec)
        → s.lock.phase i ≡ unlocking u
        → (a.unlock_step s.lock.shared u).1 ≡ o
        → Inv (k + 1) (act a start stop s i (unlocking u) now)
    unfolding move act
    unlocking_Inv u none start stop now at e =
        let stays : (s.work i).place ≡ stored = ground (arith, inv.agree i lt) in
        rw (step_phase s.lock i outside (rw (at, move, e)))
          (lock_Inv outside _ (rw (at, move, e)) (rw stays refl) tt)
    unlocking_Inv u (some u') start stop now at e =
        rw (step_phase s.lock i (unlocking u') (rw (at, move, e)))
          (plain_Inv (unlocking u') (rw (at, move, e)) (ground (arith, inv.agree i lt)))

    act-Inv :
        (start stop now : Timespec) (p : Phase a.Locking a.Unlocking)
        → Excludes a n
        → k < 2 ^ 64
        → s.lock.phase i ≡ p
        → Inv (k + 1) (act a start stop s i p now)
    unfolding act
    act-Inv start stop now outside x small at = outside_Inv start stop now (s.work i).place at refl
    act-Inv start stop now (locking l) x small at =
        locking_Inv l (a.lock_step s.lock.shared l).1 at refl
    act-Inv start stop now inside x small at = inside_Inv x small now (s.work i).place at refl
    act-Inv start stop now (unlocking u) x small at =
        unlocking_Inv u (a.unlock_step s.lock.shared u).1 start stop now at refl

  pub client_run-Inv :
      (start stop : Timespec) (k : ℕ) (s : Client a) (turns : List (ℕ × Timespec))
      → Excludes a n
      → k + length turns < 2 ^ 64
      → Within n turns
      → Inv k s
      → Inv (k + length turns) (client_run a start stop s turns)
  unfolding client_run client_step
  client_run-Inv start stop k s [] x small b inv = record {
    trace = weaken a n (omega arith) inv.trace;
    exact = inv.exact;
    agree = inv.agree;
  }
  client_run-Inv start stop k s ((i, now) ∷ turns) x small b inv =
      let next = act-Inv inv i b.0 start stop now (s.lock.phase i) x (omega arith) refl in
      let rest =
        client_run-Inv start stop (k + 1) (client_step a start stop s i now) turns x (omega arith)
          b.1 next in
      record { trace = weaken a n (omega arith) rest.trace; exact = rest.exact; agree = rest.agree }

  pub start-Inv : (unset : Timespec) → Inv 0 (client_start a unset)
  unfolding run calls
  start-Inv unset = record {
    trace = record { schedule = []; below = tt; leads = refl; few = omega arith };
    exact = omega (arith, tally_const written 0 n (client_start a unset).work (λ i b. refl));
    agree = λ i b. tt;
  }
