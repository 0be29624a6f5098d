-- ===== src/Counters/Locked.antt =====
-- project1/part2.cpp: the counter is incremented under a pthread mutex.
use mathlib.Core.Logic.{ite}
use utd_cs6v81_spring.Base.{
  ℕ, ◌+◌, ◌*◌, ◌%◌, ◌^◌, ◌≤◌, ◌<◌, ◌≡◌, refl, ap, Bool, true, false, Option, none, some, List, [],
  ◌∷◌, Text, codes, ltb, leb, ◌∙◌, ltb→lt, Bool-cases, inl, inr, ℕ_discrete, arith, if◌then◌else◌,
}
use utd_cs6v81_spring.Base.Family.{update, tally, tally-update, tally_const, le-tally, add-le-tally}
use utd_cs6v81_spring.Locks.Algorithm.{Below}
use utd_cs6v81_spring.Locks.Spin.{Mutex}
use utd_cs6v81_spring.Counters.{printed, printed-joined, launch, launch-running, rounds}

-- Where a worker stands in a round: before the lock, before the read and the write of `counter++`,
-- before the unlock.
pub data Place : Type 0 where
  ready locked : Place
  loaded : (value : ℕ) → Place
  stored : Place

pub record Worker : Type 0 where
  pub i : ℕ
  pub place : Place

abbrev pub has_ended : Worker → Bool
has_ended w = leb rounds w.i

module _ (x : Mutex) where
  pub record State : Type 0 where
    pub mutex : x.State
    pub counter : ℕ  -- uint32_t
    pub worker : ℕ → Worker

  pub record Moment : Type 0 where
    pub mutex : x.State
    pub counter : ℕ
    pub worker : Worker

  -- pthread_mutex_lock: the thread waits, or it has the mutex.
  abbrev entered : x.State → ℕ → Worker → Option x.State → Moment
  entered m counter w none = record { mutex = m; counter = counter; worker = w }
  entered m counter w (some m') = record {
    mutex = m';
    counter = counter;
    worker = record w { place = locked };
  }

  unfoldable pub act : x.State → ℕ → Worker → Place → Moment
  act m counter w ready =
      if ltb w.i rounds
      then entered m counter w (x.acquire m)
      else record { mutex = m; counter = counter; worker = w }
  act m counter w locked = record {
    mutex = m;
    counter = counter;
    worker = record w { place = loaded counter };
  }
  act m counter w (loaded v) = record {
    mutex = m;
    counter = (v + 1) % 2 ^ 32;
    worker = record w { place = stored };
  }
  act m counter w stored = record {
    mutex = x.release m;
    counter = counter;
    worker = record { i = w.i + 1; place = ready };
  }

  unfoldable pub step : State → ℕ → State
  unfolding act
  step s t =
      let after = act s.mutex s.counter (s.worker t) (s.worker t).place in
      record {
        mutex = after.mutex;
        counter = after.counter;
        worker = update s.worker t after.worker;
      }

  unfoldable pub run : State → List ℕ → State
  run s [] = s
  run s (t ∷ turns) = run (step s t) turns

  -- `pthread_mutex_init`, and the workers before their first rounds.
  abbrev pub start : State
  start = record { mutex = x.fresh; counter = 0; worker = λ _. record { i = 0; place = ready } }

  -- `main`, with its threads interleaved in the given way.
  unfoldable pub main : (Text → Option ℕ) → (ℕ → Bool) → List Text → List ℕ → Option ℕ
  main cast creates args turns =
      let s = run start turns in
      printed has_ended s.worker s.counter
        (launch (codes "./part2 <num_threads>") cast creates args)

abbrev holds_at : Place → ℕ
holds_at ready = 0
holds_at p = 1

abbrev holds : Worker → ℕ
holds w = holds_at w.place

abbrev written_at : Worker → Place → ℕ
written_at w stored = w.i + 1
written_at w p = w.i

-- The increments that a worker has stored.
abbrev pub written : Worker → ℕ
written w = written_at w w.place

-- Under the lock, the value read is the counter's, and the round is one of the loop's.
abbrev Knows : ℕ → Worker → Place → Type 0
Knows counter w ready = Unit
Knows counter w (loaded v) = (v ≡ counter) × (w.i < rounds)
Knows counter w p = w.i < rounds

Knows-other : (a b : ℕ) (w : Worker) (p : Place) → holds_at p ≡ 0 → Knows a w p → Knows b w p
Knows-other a b w ready h k = tt
Knows-other a b w locked h k = absurd (omega arith)
Knows-other a b w (loaded v) h k = absurd (omega arith)
Knows-other a b w stored h k = absurd (omega arith)

abbrev taken : Bool → ℕ
taken b = if b then 1 else 0

module _ (x : Mutex) where
  record Moved (m : x.State) (counter : ℕ) (w : Worker) (after : Moment x) : Type 0 where
    owner : holds after.worker + taken (x.held m) ≡ holds w + taken (x.held after.mutex)
    sum :
        (a b : ℕ)
        → counter ≡ a % 2 ^ 32
        → b + written w ≡ a + written after.worker
        → after.counter ≡ b % 2 ^ 32
    knows : Knows after.counter after.worker after.worker.place
    others :
        (q : Worker)
        → holds w + holds q ≤ 1
        → Knows counter q q.place
        → Knows after.counter q q.place

  blocked-Moved :
      (m : x.State) (counter : ℕ) (w : Worker)
      → Knows counter w w.place
      → Moved m counter w (record { mutex = m; counter = counter; worker = w })
  blocked-Moved m counter w k = record {
    owner = refl;
    sum = λ a b f g. let same : b ≡ a = omega arith in rw same f;
    knows = k;
    others = λ q few known. known;
  }

  entered-Moved :
      (m m' : x.State) (counter : ℕ) (w : Worker)
      → w.place ≡ ready
      → w.i < rounds
      → x.held m ≡ false
      → x.held m' ≡ true
      → Moved m counter w
          (record { mutex = m'; counter = counter; worker = record w { place = locked } })
  entered-Moved m m' counter w e more free held = record {
    owner = ground (arith, e, free, held);
    sum = λ a b f g. ground (arith, e);
    knows = more;
    others = λ q few known. known;
  }

  act-Moved :
      (m : x.State) (counter : ℕ) (w : Worker) (p : Place)
      → w.place ≡ p
      → holds w ≤ taken (x.held m)
      → Knows counter w p
      → Moved m counter w (act x m counter w p)
  unfolding act
  act-Moved m counter w ready e h k = elim (Bool-cases (ltb w.i rounds)) [
    | inl more ↦ elim (Bool-cases (x.held m)) [
      | inl busy ↦ rw (more, x.acquire_held m busy) (blocked-Moved m counter w (rw e tt))
      | inr free ↦
          let (m', got, held) = x.acquire_free m free in
          rw (more, got) (entered-Moved m m' counter w e (ltb→lt _ _ more) free held)
    ]
    | inr last ↦ rw last (blocked-Moved m counter w (rw e tt))
  ]
  act-Moved m counter w locked e h k = record {
    owner = ground (arith, e);
    sum = λ a b f g. ground (arith, e);
    knows = (refl, k);
    others = λ q few known. known;
  }
  act-Moved m counter w (loaded v) e h k = record {
    owner = ground (arith, e);
    sum = λ a b f g. ground (arith, e, k);
    knows = k.1;
    others = λ q few known. Knows-other counter _ q q.place (ground (arith, e, few)) known;
  }
  act-Moved m counter w stored e h k = record {
    owner = ground (arith, e, x.release_free m, h);
    sum = λ a b f g. ground (arith, e);
    knows = tt;
    others = λ q few known. known;
  }

  record Inv (n : ℕ) (s : State x) : Type 0 where
    owner : tally holds n s.worker ≡ taken (x.held s.mutex)
    sum : s.counter ≡ tally written n s.worker % 2 ^ 32
    knows : (t : ℕ) → t < n → Knows s.counter (s.worker t) (s.worker t).place

  taken-le : (b : Bool) → taken b ≤ 1
  taken-le b = ground arith

  step-Inv : (n : ℕ) (s : State x) (t : ℕ) → t < n → Inv n s → Inv n (step x s t)
  unfolding step
  step-Inv n s t b inv =
      let w = s.worker t in
      let after = act x s.mutex s.counter w w.place in
      let mine = le-tally holds n s.worker t b in
      let m =
        act-Moved s.mutex s.counter w w.place refl (omega (arith, mine, inv.owner))
          (inv.knows t b) in
      let few = taken-le (x.held s.mutex) in
      record {
        owner = omega (arith, tally-update holds n s.worker t after.worker b, m.owner, inv.owner);
        sum = m.sum _ _ inv.sum (tally-update written n s.worker t after.worker b);
        knows = λ j q.
            elim (ℕ_discrete t j)
              as (λ d.
                Knows after.counter (ite d after.worker (s.worker j))
                  (ite d after.worker (s.worker j)).place) [
                    | yes e ↦ m.knows
                    | no apart ↦
                        m.others (s.worker j)
                          (omega
                            (arith, add-le-tally holds n s.worker t j b q apart, inv.owner, few))
                          (inv.knows j q)
                  ];
      }

  run-Inv : (n : ℕ) (s : State x) (turns : List ℕ) → Below n turns → Inv n s → Inv n (run x s turns)
  unfolding run
  run-Inv n s [] b inv = inv
  run-Inv n s (t ∷ turns) b inv = run-Inv n (step x s t) turns b.1 (step-Inv n s t b.0 inv)

  start-Inv : (n : ℕ) → Inv n (start x)
  start-Inv n = record {
    owner = ground (arith, tally_const holds 0 n (start x).worker (λ t q. refl), x.fresh_free);
    sum = omega (arith, tally_const written 0 n (start x).worker (λ t q. refl));
    knows = λ t q. tt;
  }

  written_all :
      (counter : ℕ) (w : Worker) (p : Place)
      → Knows counter w p
      → w.i ≡ rounds
      → written_at w p ≡ rounds
  written_all counter w p k e = ground arith

-- part2 with a number `n` of threads on its command line, over any mutex and when pthread_create
-- never fails, interleaved in any way: once every worker has done its 10000 rounds, `main` prints
-- 10000 for each thread, modulo 2 ^ 32.
pub locked_counter_prints :
    (x : Mutex) (cast : Text → Option ℕ) (creates : ℕ → Bool) (arg : Text) (n : ℕ) (turns : List ℕ)
    → cast arg ≡ some n
    → ((j : ℕ) → creates j ≡ true)
    → Below n turns
    → ((t : ℕ) → t < n → ((run x (start x) turns).worker t).i ≡ rounds)
    → main x cast creates (arg ∷ []) turns ≡ some (n * rounds % 2 ^ 32)
unfolding main
locked_counter_prints x cast creates arg n turns e all b ended =
    let s = run x (start x) turns in
    let inv = run-Inv x n (start x) turns b (start-Inv x n) in
    let total = tally_const written rounds n s.worker (λ t q.
      written_all x s.counter (s.worker t) (s.worker t).place (inv.knows t q) (ended t q)) in
    let shown : s.counter ≡ n * rounds % 2 ^ 32 = omega (arith, inv.sum, total) in
    rw (launch-running (codes "./part2 <num_threads>") arg cast creates n e all) (
      printed-joined has_ended s.worker s.counter n (λ t q. ground (arith, ended t q))
      ∙ ap some shown)
