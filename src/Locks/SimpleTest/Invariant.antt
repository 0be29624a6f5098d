-- ===== src/Locks/SimpleTest/Invariant.antt =====
-- What holds of the test at every moment, over any lock that excludes.
use utd_cs6v81_spring.Base.{
  ℕ, ◌+◌, ◌*◌, ◌%◌, ◌^◌, ◌≤◌, ◌<◌, ◌≡◌, refl, ap, ◌∙◌, true, Option, none, some, List, [], ◌∷◌,
  ◌++◌, arith, ltb, Bool-cases, inl, inr,
}
use utd_cs6v81_spring.Base.Family.{update, tally, tally-update, tally_bounded}
use utd_cs6v81_spring.Locks.Algorithm.{
  Algorithm, Phase, outside, locking, inside, unlocking, is_inside, Below, Threads, move, step, run,
  fresh, calls, calling, Excludes,
}
use utd_cs6v81_spring.Locks.Schedule.{Below-append, run-append, calls-append}
use utd_cs6v81_spring.Locks.SimpleTest.{
  Stage, ready, loaded, stored, Work, target, Client, increment, act, client_step,
}

-- The increments that a thread has written.
abbrev pub written : Work → ℕ
written w = w.rounds + elim w.stage [ stored ↦ 1 | _ ↦ 0 ]

abbrev pub rounds_of : Work → ℕ
rounds_of w = w.rounds

module _ {L U : Type 0} where
  abbrev pub busy : Phase L U → ℕ
  busy outside = 0
  busy _ = 1

  -- How the lock and the loop body of one thread stand together.
  abbrev pub Agree : ℕ → Phase L U → Stage → ℕ → Type 0
  Agree counter outside ready r = r ≤ target
  Agree counter (locking l) ready r = r < target
  Agree counter inside ready r = r < target
  Agree counter inside (loaded v) r = (r < target) × (v ≡ counter)
  Agree counter inside stored r = r < target
  Agree counter (unlocking u) stored r = r < target
  Agree counter _ _ r = ⊥

module _ (a : Algorithm) (n : ℕ) where
  -- The lock has been used as a lock is: by calls of `lock` and `unlock` in turn.
  pub record Trace (l : Threads a) (bound : ℕ) : Type 0 where
    pub schedule : List ℕ
    pub below : Below n schedule
    pub leads : run a (fresh a) schedule ≡ l
    pub few : calls a (fresh a) schedule ≤ bound

  pub step-Trace :
      {l : Threads a} {k : ℕ} (i : ℕ)
      → i < n
      → Trace l k
      → Trace (step a l i) (k + calling (l.phase i))
  step-Trace {l} i lt t = record {
    schedule = t.schedule ++ (i ∷ []);
    below = Below-append n i t.schedule t.below lt;
    leads = run-append a (fresh a) i t.schedule ∙ ap (λ m. step a m i) t.leads;
    few = rw (calls-append a (fresh a) i t.schedule, t.leads) (omega (arith, t.few));
  }

  pub record Inv (s : Client a) : Type 0 where
    pub trace : Trace s.lock (tally rounds_of n s.work + tally busy n s.lock.phase)
    pub exact : s.counter ≡ tally written n s.work % 2 ^ 64
    pub agree :
        (i : ℕ) → i < n → Agree s.counter (s.lock.phase i) (s.work i).stage (s.work i).rounds

  pub weaken : {l : Threads a} {k m : ℕ} → k ≤ m → Trace l k → Trace l m
  weaken h t = record {
    schedule = t.schedule;
    below = t.below;
    leads = t.leads;
    few = omega (arith, t.few);
  }

  busy-le : (p : Phase a.Locking a.Unlocking) → busy p ≤ 1
  busy-le p = ground arith

  Agree-rounds :
      (k : ℕ) (p : Phase a.Locking a.Unlocking) (st : Stage) (r : ℕ) → Agree k p st r → r ≤ target
  Agree-rounds k p st r h = ground arith

  step_phase :
      (l : Threads a) (i : ℕ) (q : Phase a.Locking a.Unlocking)
      → (move a l.shared (l.phase i)).1 ≡ q
      → (step a l i).phase i ≡ q
  unfolding step
  step_phase l i q e = ground (arith, e)

  pub rounds_bound : {s : Client a} → Inv s → tally rounds_of n s.work ≤ n * target
  rounds_bound {s} inv = tally_bounded rounds_of target n s.work (λ i h.
      Agree-rounds s.counter (s.lock.phase i) (s.work i).stage (s.work i).rounds (inv.agree i h))

  module _ {s : Client a} (inv : Inv s) (i : ℕ) (lt : i < n) where
    -- A step of the lock's methods that the loop does not see.
    lock_Inv :
        (q : Phase a.Locking a.Unlocking)
        → (move a s.lock.shared (s.lock.phase i)).1 ≡ q
        → busy q ≡ busy (s.lock.phase i) + calling (s.lock.phase i)
        → Agree s.counter q (s.work i).stage (s.work i).rounds
        → Inv (record s { lock = step a s.lock i })
    unfolding step
    lock_Inv q e kept ok = record {
      trace =
          weaken (rw e (omega (arith, kept, tally-update busy n s.lock.phase i q lt)))
            (step-Trace i lt inv.trace);
      exact = inv.exact;
      agree = λ j h. ground (arith, inv.agree j h);
    }

    -- The return of `unlock`, and `i++`.
    return_Inv :
        {u : a.Unlocking}
        → s.lock.phase i ≡ unlocking u
        → (move a s.lock.shared (s.lock.phase i)).1 ≡ outside
        → (s.work i).stage ≡ stored
        → Inv (record s {
          lock = step a s.lock i;
          work = update s.work i (record { rounds = (s.work i).rounds + 1; stage = ready });
        })
    unfolding step
    return_Inv at e done =
        let w : Work = record { rounds = (s.work i).rounds + 1; stage = ready } in
        record {
          trace =
              weaken
                (rw e (
                  ground (
                    arith,
                    tally-update busy n s.lock.phase i outside lt,
                    tally-update rounds_of n s.work i w lt,
                  )))
                (step-Trace i lt inv.trace);
          exact = ground (arith, inv.exact, tally-update written n s.work i w lt);
          agree = λ j h. ground (arith, inv.agree j h, inv.agree i lt);
        }

    module _ (at : s.lock.phase i ≡ inside) where
      load_Inv :
          (s.work i).stage ≡ ready
          → Inv
              (record s { work = update s.work i (record (s.work i) { stage = loaded s.counter }) })
      load_Inv e = record {
        trace =
            weaken
              (omega (
                arith,
                tally-update rounds_of n s.work i (record (s.work i) { stage = loaded s.counter })
                    lt,
              ))
              inv.trace;
        exact = ground (
          arith,
          inv.exact,
          tally-update written n s.work i (record (s.work i) { stage = loaded s.counter }) lt,
        );
        agree = λ j h. ground (arith, inv.agree j h, inv.agree i lt);
      }

      alone :
          Excludes a n → n < 2 ^ 32 → (j : ℕ) → j < n → is_inside (s.lock.phase j) ≡ true → i ≡ j
      alone x small j h in_j =
          x.exclusive inv.trace.schedule i j inv.trace.below
            (omega (
              arith,
              inv.trace.few,
              rounds_bound inv,
              tally_bounded busy 1 n s.lock.phase (λ k _. busy-le (s.lock.phase k)),
            ))
            lt h (rw (inv.trace.leads, at)) (rw inv.trace.leads in_j)

      -- Only this thread is inside, so no other holds a value of the counter.
      store_Inv :
          (v : ℕ)
          → Excludes a n
          → n < 2 ^ 32
          → (s.work i).stage ≡ loaded v
          → Inv (record s {
            counter = (v + 1) % 2 ^ 64;
            work = update s.work i (record (s.work i) { stage = stored });
          })
      store_Inv v x small e =
          let w : Work = record (s.work i) { stage = stored } in
          record {
            trace = weaken (omega (arith, tally-update rounds_of n s.work i w lt)) inv.trace;
            exact = ground (arith, inv.exact, inv.agree i lt, tally-update written n s.work i w lt);
            agree = λ j h. ground (arith, inv.agree j h, inv.agree i lt, alone x small j h);
          }

    module _ (x : Excludes a n) (small : n < 2 ^ 32) where
      inside_Inv :
          (st : Stage)
          → s.lock.phase i ≡ inside
          → (s.work i).stage ≡ st
          → Inv (increment a s i (s.work i) st)
      unfolding increment move
      inside_Inv ready at e = load_Inv at e
      inside_Inv (loaded v) at e = store_Inv at v x small e
      inside_Inv stored at e =
          lock_Inv (unlocking a.leave) (rw at) (ground arith) (ground (arith, inv.agree i lt))

      locking_Inv :
          (l : a.Locking) (o : Option a.Locking)
          → s.lock.phase i ≡ locking l
          → (a.lock_step s.lock.shared l).1 ≡ o
          → Inv (record s { lock = step a s.lock i })
      unfolding move
      locking_Inv l none at e =
          lock_Inv inside (rw (at, move, e)) (ground arith) (ground (arith, inv.agree i lt))
      locking_Inv l (some l') at e =
          lock_Inv (locking l') (rw (at, move, e)) (ground arith) (ground (arith, inv.agree i lt))

      unlocking_Inv :
          (u : a.Unlocking) (o : Option a.Unlocking)
          → s.lock.phase i ≡ unlocking u
          → (a.unlock_step s.lock.shared u).1 ≡ o
          → Inv (act a s i (unlocking u) (s.work i))
      unfolding move act
      unlocking_Inv u none at e =
          rw (step_phase s.lock i outside (rw (at, move, e)))
            (return_Inv at (rw (at, move, e)) (ground (arith, inv.agree i lt)))
      unlocking_Inv u (some u') at e = rw (step_phase s.lock i (unlocking u') (rw (at, move, e))) (
          lock_Inv (unlocking u') (rw (at, move, e)) (ground arith)
            (ground (arith, inv.agree i lt)))

      act-Inv :
          (p : Phase a.Locking a.Unlocking) → s.lock.phase i ≡ p → Inv (act a s i p (s.work i))
      unfolding act move
      act-Inv outside at = elim (Bool-cases (ltb (s.work i).rounds target)) [
        | inl more ↦ rw more (
            lock_Inv (locking (a.enter s.lock.shared)) (rw at) (ground arith)
              (ground (arith, inv.agree i lt)))
        | inr over ↦ rw over inv
      ]
      act-Inv (locking l) at = locking_Inv l (a.lock_step s.lock.shared l).1 at refl
      act-Inv inside at = inside_Inv (s.work i).stage at refl
      act-Inv (unlocking u) at = unlocking_Inv u (a.unlock_step s.lock.shared u).1 at refl

      pub client_step-Inv : Inv (client_step a s i)
      unfolding client_step
      client_step-Inv = act-Inv (s.lock.phase i) refl
