-- ===== src/Counters/Atomic.antt =====
-- project1/part2a.cpp: the counter is incremented by __sync_add_and_fetch.
use utd_cs6v81_spring.Base.{
  ℕ, ◌+◌, ◌*◌, ◌%◌, ◌^◌, ◌<◌, ◌≡◌, refl, ap, Bool, true, Option, some, List, [], ◌∷◌, Text, codes,
  ltb, leb, ◌∙◌, Bool-cases, inl, inr, arith, if◌then◌else◌,
}
use utd_cs6v81_spring.Base.Family.{update, tally, tally-update, tally_const}
use utd_cs6v81_spring.Locks.Algorithm.{Below}
use utd_cs6v81_spring.Counters.{printed, printed-joined, launch, launch-running, rounds}

-- The counter, a uint32_t, and the loop variables of the workers.
pub record State : Type 0 where
  pub counter : ℕ
  pub i : ℕ → ℕ

-- A round of a worker.
unfoldable pub step : State → ℕ → State
step s t =
    if ltb (s.i t) rounds
    then record { counter = (s.counter + 1) % 2 ^ 32; i = update s.i t (s.i t + 1) }
    else s

unfoldable pub run : State → List ℕ → State
run s [] = s
run s (t ∷ turns) = run (step s t) turns

abbrev pub start : State
start = record { counter = 0; i = λ _. 0 }

-- The loop variable of a worker that has ended.
abbrev pub has_ended : ℕ → Bool
has_ended i = leb rounds i

-- `main`, with its threads interleaved in the given way.
unfoldable pub main : (Text → Option ℕ) → (ℕ → Bool) → List Text → List ℕ → Option ℕ
main cast creates args turns =
    let s = run start turns in
    printed has_ended s.i s.counter (launch (codes "./part2a <num_threads>") cast creates args)

abbrev pub done : ℕ → ℕ
done i = i

module _ (n : ℕ) where
  step_sum :
      (s : State) (t : ℕ)
      → t < n
      → s.counter ≡ tally done n s.i % 2 ^ 32
      → (step s t).counter ≡ tally done n (step s t).i % 2 ^ 32
  unfolding step
  step_sum s t b e = elim (Bool-cases (ltb (s.i t) rounds)) [
    | inl more ↦ rw more (omega (arith, tally-update done n s.i t (s.i t + 1) b, e))
    | inr last ↦ rw last e
  ]

  run_sum :
      (s : State) (turns : List ℕ)
      → Below n turns
      → s.counter ≡ tally done n s.i % 2 ^ 32
      → (run s turns).counter ≡ tally done n (run s turns).i % 2 ^ 32
  unfolding run
  run_sum s [] b e = e
  run_sum s (t ∷ turns) b e = run_sum (step s t) turns b.1 (step_sum s t b.0 e)

-- part2a with a number `n` of threads on its command line, when pthread_create never fails,
-- interleaved in any way: once every worker has done its 10000 rounds, `main` prints 10000 for each
-- thread, modulo 2 ^ 32.
pub atomic_counter_prints :
    (cast : Text → Option ℕ) (creates : ℕ → Bool) (arg : Text) (n : ℕ) (turns : List ℕ)
    → cast arg ≡ some n
    → ((j : ℕ) → creates j ≡ true)
    → Below n turns
    → ((t : ℕ) → t < n → (run start turns).i t ≡ rounds)
    → main cast creates (arg ∷ []) turns ≡ some (n * rounds % 2 ^ 32)
unfolding main
atomic_counter_prints cast creates arg n turns e all b ended =
    let s = run start turns in
    let none_yet = tally_const done 0 n start.i (λ t q. refl) in
    let sum = run_sum n start turns b (omega (arith, none_yet)) in
    let total = tally_const done rounds n s.i ended in
    let shown : s.counter ≡ n * rounds % 2 ^ 32 = omega (arith, sum, total) in
    rw (launch-running (codes "./part2a <num_threads>") arg cast creates n e all)
      (printed-joined has_ended s.i s.counter n (λ t q. ground (arith, ended t q)) ∙ ap some shown)
