-- ===== src/Counters/Racy.antt =====
-- project1/part1.cpp: the counter is read and written with no lock.
pub mod Least
use mathlib.Core.Logic.{ite}
use utd_cs6v81_spring.Base.{
  ℕ, ◌+◌, ◌*◌, ◌%◌, ◌^◌, ◌≤◌, ◌<◌, ◌≡◌, inl, inr, refl, Bool, true, Option, none, some, List, [],
  ◌∷◌, Text, codes, ltb, leb, Bool-cases, ltb→lt, ℕ_discrete, arith, if◌then◌else◌,
}
use utd_cs6v81_spring.Base.Family.{update, tally, tally-update}
use utd_cs6v81_spring.Locks.Algorithm.{Below}
use utd_cs6v81_spring.Counters.{printed, launch, rounds}

-- A worker: its loop variable, and `local` between the read of the counter and the write.
pub record Worker : Type 0 where
  pub i : ℕ
  pub local : Option ℕ

pub record State : Type 0 where
  pub counter : ℕ  -- uint32_t
  pub worker : ℕ → Worker

-- One access of a worker.
unfoldable pub act : ℕ → Worker → Option ℕ → ℕ × Worker
act counter w none =
    if ltb w.i rounds then (counter, record w { local = some counter }) else (counter, w)
act counter w (some local) = ((local + 1) % 2 ^ 32, record { i = w.i + 1; local = none })

unfoldable pub step : State → ℕ → State
unfolding act
step s t =
    let (counter, w) = act s.counter (s.worker t) (s.worker t).local in
    record { counter = counter; worker = update s.worker t w }

unfoldable pub run : State → List ℕ → State
run s [] = s
run s (t ∷ turns) = run (step s t) turns

abbrev pub start : State
start = record { counter = 0; worker = λ _. record { i = 0; local = none } }

abbrev pub has_ended : Worker → Bool
has_ended w = leb rounds w.i

-- `main`, with its threads interleaved in the given way.
unfoldable pub main : (Text → Option ℕ) → (ℕ → Bool) → List Text → List ℕ → Option ℕ
main cast creates args turns =
    let s = run start turns in
    printed has_ended s.worker s.counter (launch (codes "./part1 <num_threads>") cast creates args)

abbrev pub done : Worker → ℕ
done w = w.i

-- What a worker has read is not above the rounds done, and it does no round too many.
abbrev pub Knows : (total : ℕ) → Worker → Option ℕ → Type 0
Knows total w none = w.i ≤ rounds
Knows total w (some local) = (local ≤ total) × (w.i < rounds)

record Moved (total counter : ℕ) (w : Worker) (counter' : ℕ) (w' : Worker) : Type 0 where
  more : w.i ≤ w'.i
  bound : counter' + w.i ≤ total + w'.i
  knows : Knows total w' w'.local

act-Moved :
    (total counter : ℕ) (w : Worker) (l : Option ℕ)
    → w.local ≡ l
    → counter ≤ total
    → Knows total w l
    → Moved total counter w (act counter w l).0 (act counter w l).1
unfolding act
act-Moved total counter w none e h k = elim (Bool-cases (ltb w.i rounds)) [
  | inl more ↦
      rw more
        (record { more = omega arith; bound = omega (arith, h); knows = (h, ltb→lt _ _ more) })
  | inr last ↦ rw last (record { more = omega arith; bound = omega (arith, h); knows = rw e k })
]
act-Moved total counter w (some local) e h k = record {
  more = omega arith;
  bound = omega (arith, k);
  knows = omega (arith, k);
}

pub record Inv (n : ℕ) (counter : ℕ) (worker : ℕ → Worker) : Type 0 where
  pub bound : counter ≤ tally done n worker
  pub knows : (t : ℕ) → t < n → Knows (tally done n worker) (worker t) (worker t).local

Knows-mono : (a b : ℕ) (w : Worker) (l : Option ℕ) → a ≤ b → Knows a w l → Knows b w l
Knows-mono a b w none h k = k
Knows-mono a b w (some local) h k = omega (arith, k)

module _ (n : ℕ) where
  pub step-Inv :
      (s : State) (t : ℕ)
      → t < n
      → Inv n s.counter s.worker
      → Inv n (step s t).counter (step s t).worker
  unfolding step
  step-Inv s t b inv =
      let w = s.worker t in
      let m =
        act-Moved (tally done n s.worker) s.counter w w.local refl inv.bound (inv.knows t b) in
      let w' = (act s.counter w w.local).1 in
      let swap = tally-update done n s.worker t w' b in
      let later = λ (v : Worker).
        Knows-mono (tally done n s.worker) (tally done n (update s.worker t w')) v v.local
          (omega (arith, swap, m.more)) in
      record {
        bound = omega (arith, swap, m.bound);
        knows = λ j q.
            elim (ℕ_discrete t j)
              as (λ d.
                Knows (tally done n (update s.worker t w')) (ite d w' (s.worker j))
                  (ite d w' (s.worker j)).local) [
                    | yes e ↦ later w' m.knows
                    | no e ↦ later (s.worker j) (inv.knows j q)
                  ];
      }

  pub run-Inv :
      (s : State) (turns : List ℕ)
      → Below n turns
      → Inv n s.counter s.worker
      → Inv n (run s turns).counter (run s turns).worker
  unfolding run
  run-Inv s [] b inv = inv
  run-Inv s (t ∷ turns) b inv = run-Inv (step s t) turns b.1 (step-Inv s t b.0 inv)

  pub start-Inv : Inv n start.counter start.worker
  start-Inv = record { bound = omega arith; knows = λ t q. omega arith }
