-- ===== src/Counters/Racy/Least.antt =====
-- The least that project1/part1.cpp can print: the counter against the rounds of each worker.
use mathlib.Core.Path.{subst}
use mathlib.Core.Logic.{ite}
use utd_cs6v81_spring.Base.{
  ℕ, ◌+◌, ◌*◌, ◌^◌, ◌≤◌, ◌<◌, ◌≡◌, ◌⊎◌, inl, inr, refl, Bool, true, Option, none, some, List, [],
  ◌∷◌, Text, codes, ltb, Bool-cases, ℕ_discrete, arith,
}
use utd_cs6v81_spring.Base.Family.{update, tally, tally-update, tally_bounded}
use utd_cs6v81_spring.Locks.Algorithm.{Below}
use utd_cs6v81_spring.Counters.{printed-joined, launch-running, rounds}
use utd_cs6v81_spring.Counters.Racy.{
  Worker, State, act, step, run, start, main, has_ended, done, Knows, Inv, step-Inv, run-Inv,
  start-Inv,
}

-- The value is not 0 once the worker has done a round.
abbrev Begun : Worker → ℕ → Type 0
Begun w v = (w.i ≡ 0) ⊎ (1 ≤ v)

abbrev ReadBegun : Worker → Option ℕ → Type 0
ReadBegun w none = Unit
ReadBegun w (some local) = Begun w local

-- What an access does to the counter: it leaves it alone, or it writes at least 1, and at least 2 in
-- any round of the worker but its first.
record Wrote (counter : ℕ) (w : Worker) (counter' : ℕ) (w' : Worker) : Type 0 where
  begun : Begun w' counter'
  read : ReadBegun w' w'.local
  counted : (counter' ≡ counter) ⊎ (1 ≤ counter')
  low : ((counter' ≡ counter) × (w'.i ≡ w.i)) ⊎ (2 ≤ counter') ⊎ (w'.i ≤ 1)

act-Wrote :
    (counter : ℕ) (w : Worker) (l : Option ℕ)
    → w.local ≡ l
    → Begun w counter
    → ReadBegun w l
    → ((v : ℕ) → l ≡ some v → v + 1 < 2 ^ 32)
    → Wrote counter w (act counter w l).0 (act counter w l).1
unfolding act
act-Wrote counter w none e b r fits = elim (Bool-cases (ltb w.i rounds)) [
  | inl more ↦ rw more record { begun = b; read = b; counted = inl refl; low = inl (refl, refl) }
  | inr last ↦
      rw last record { begun = b; read = rw e tt; counted = inl refl; low = inl (refl, refl) }
]
act-Wrote counter w (some local) e b r fits =
    let whole = fits local refl in
    record {
      begun = inr (omega arith);
      read = tt;
      counted = inr (omega arith);
      low = inr (elim r [ inl first ↦ inr (omega arith) | inr later ↦ inl (omega arith) ]);
    }

record Low (n : ℕ) (s : State) : Type 0 where
  begun : (t : ℕ) → t < n → Begun (s.worker t) s.counter
  read : (t : ℕ) → t < n → ReadBegun (s.worker t) (s.worker t).local
  low : (2 ≤ s.counter) ⊎ ((t : ℕ) × (t < n) × ((s.worker t).i ≤ 1))

Begun-other :
    (w : Worker) (counter counter' : ℕ)
    → (counter' ≡ counter) ⊎ (1 ≤ counter')
    → Begun w counter
    → Begun w counter'
Begun-other w counter counter' (inl same) b = rw same b
Begun-other w counter counter' (inr more) b = inr more

update_here : (f : ℕ → Worker) (t : ℕ) (w : Worker) → update f t w t ≡ w
update_here f t w = elim (ℕ_discrete t t) as (λ d. ite d w (f t) ≡ w) [
  | yes same ↦ refl
  | no apart ↦ absurd (apart refl)
]

-- A worker in its first two rounds stays one when an access leaves all loop variables alone.
few_rounds :
    (f : ℕ → Worker) (t : ℕ) (w : Worker) (j : ℕ)
    → w.i ≡ (f t).i
    → (f j).i ≤ 1
    → (update f t w j).i ≤ 1
few_rounds f t w j e h = elim (ℕ_discrete t j) as (λ d. (ite d w (f j)).i ≤ 1) [
  | yes same ↦ rw (e, same) h
  | no apart ↦ h
]

module _ (n : ℕ) (few : n * rounds < 2 ^ 32) where
  i_bounded : (total : ℕ) (w : Worker) (l : Option ℕ) → w.local ≡ l → Knows total w l → w.i ≤ rounds
  i_bounded total w none e k = k
  i_bounded total w (some v) e k = omega (arith, k)

  -- A value that a worker has read can be incremented with no overflow.
  reads_fit :
      (s : State) (t : ℕ)
      → t < n
      → Inv n s.counter s.worker
      → (v : ℕ) → Knows (tally done n s.worker) (s.worker t) (some v)
      → v + 1 < 2 ^ 32
  reads_fit s t b inv v k =
      let w' : Worker = record { i = (s.worker t).i + 1; local = none } in
      let all = tally_bounded done rounds n (update s.worker t w') (λ j q.
        elim (ℕ_discrete t j) as (λ d. (ite d w' (s.worker j)).i ≤ rounds) [
          | yes same ↦ omega (arith, k)
          | no apart ↦
              i_bounded (tally done n s.worker) (s.worker j) (s.worker j).local refl (inv.knows j q)
        ]) in
      omega (arith, all, few, k, tally-update done n s.worker t w' b)

  step-Low : (s : State) (t : ℕ) → t < n → Inv n s.counter s.worker → Low n s → Low n (step s t)
  unfolding step
  step-Low s t b inv l =
      let w = s.worker t in
      let w' = (act s.counter w w.local).1 in
      let counter' = (act s.counter w w.local).0 in
      let wrote = act-Wrote s.counter w w.local refl (l.begun t b) (l.read t b) (λ v e.
        reads_fit s t b inv v (subst (Knows (tally done n s.worker) w) e (inv.knows t b))) in
      record {
        begun = λ j q. elim (ℕ_discrete t j) as (λ d. Begun (ite d w' (s.worker j)) counter') [
          | yes same ↦ wrote.begun
          | no apart ↦ Begun-other (s.worker j) s.counter counter' wrote.counted (l.begun j q)
        ];
        read = λ j q.
            elim (ℕ_discrete t j)
              as (λ d. ReadBegun (ite d w' (s.worker j)) (ite d w' (s.worker j)).local) [
                | yes same ↦ wrote.read
                | no apart ↦ l.read j q
              ];
        low = elim wrote.low [
          | inl kept ↦ elim l.low [
            | inl two ↦ inl (rw kept.0 two)
            | inr first ↦ inr (first.0, first.1, few_rounds s.worker t w' first.0 kept.1 first.2)
          ]
          | inr done ↦ elim done [
            | inl two ↦ inl two
            | inr first ↦ inr (t, b, rw (update_here s.worker t w') first)
          ]
        ];
      }

  run-Low :
      (s : State) (turns : List ℕ)
      → Below n turns
      → Inv n s.counter s.worker
      → Low n s
      → Low n (run s turns)
  unfolding run
  run-Low s [] b inv l = l
  run-Low s (t ∷ turns) b inv l =
      run-Low (step s t) turns b.1 (step-Inv n s t b.0 inv) (step-Low s t b.0 inv l)

two-le-counter :
    (n : ℕ) (s : State) → ((t : ℕ) → t < n → (s.worker t).i ≡ rounds) → Low n s → 2 ≤ s.counter
two-le-counter n s ended l = elim l.low [
  | inl two ↦ two
  | inr first ↦ absurd (omega (arith, ended first.0 first.1, first.2))
]

-- part1 with a number `n` of threads on its command line that is not 0, few enough for 10000 rounds
-- of each to fit in 32 bits, when pthread_create never fails, interleaved in any way: once every
-- worker has done its 10000 rounds, `main` prints a number that is at least 2 and at most 10000 for
-- each thread.
pub racy_counter_prints :
    (cast : Text → Option ℕ) (creates : ℕ → Bool) (arg : Text) (n : ℕ) (turns : List ℕ)
    → cast arg ≡ some n
    → ((j : ℕ) → creates j ≡ true)
    → 0 < n
    → n * rounds < 2 ^ 32
    → Below n turns
    → ((t : ℕ) → t < n → ((run start turns).worker t).i ≡ rounds)
    → (counter : ℕ) × (main cast creates (arg ∷ []) turns ≡ some counter)
      × (2 ≤ counter)
      × (counter ≤ n * rounds)
unfolding main
racy_counter_prints cast creates arg n turns e all some_thread few b ended =
    let s = run start turns in
    let inv = run-Inv n start turns b (start-Inv n) in
    let low = run-Low n few start turns b (start-Inv n) (record {
      begun = λ t q. inl refl;
      read = λ t q. tt;
      low = inr (0, some_thread, omega arith);
    }) in
    (
      s.counter,
      rw (launch-running (codes "./part1 <num_threads>") arg cast creates n e all)
          (printed-joined has_ended s.worker s.counter n (λ t q. ground (arith, ended t q))),
      two-le-counter n s ended low,
      omega (
        arith,
        inv.bound,
        tally_bounded done rounds n s.worker (λ t q. omega (arith, ended t q)),
      ),
    )
