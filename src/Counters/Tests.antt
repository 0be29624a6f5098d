-- ===== src/Counters/Tests.antt =====
-- Two threads: with no lock, the second overwrites what the first has written. One thread alone with
-- the atomic increment, and with the mutex.
use utd_cs6v81_spring.Base.{
  ℕ, zero, suc, ◌*◌, ◌%◌, ◌^◌, ◌≤◌, ◌<◌, ◌≡◌, refl, Bool, true, Option, none, some, List, [], ◌∷◌,
  Text, codes, same_text, ℕ_discrete, arith, if◌then◌else◌,
}
use utd_cs6v81_spring.Locks.Algorithm.{Below}
use utd_cs6v81_spring.Counters.{launch, rounds}
use utd_cs6v81_spring.Counters.Racy
use utd_cs6v81_spring.Counters.Racy.Least.{racy_counter_prints}
use utd_cs6v81_spring.Harness.Main.{joined}
use utd_cs6v81_spring.Counters.Atomic
use utd_cs6v81_spring.Counters.Locked
use utd_cs6v81_spring.Counters.Locked.{locked_counter_prints}
use utd_cs6v81_spring.Locks.Samples.{bit_mutex}
use utd_cs6v81_spring.Counters.Atomic.{atomic_counter_prints}

abbrev cast : Text → Option ℕ
cast t =
    if same_text t (codes "2") then some 2 else if same_text t (codes "1") then some 1 else none

abbrev always : ℕ → Bool
always i = true

-- Two threads that both read the counter before either writes it, in each of their rounds.
abbrev overlapping : ℕ → List ℕ
overlapping zero = []
overlapping (suc k) = 0 ∷ 1 ∷ 0 ∷ 1 ∷ overlapping k

overlapping-Below : (k : ℕ) → Below 2 (overlapping k)
overlapping-Below zero = tt
overlapping-Below (suc k) =
    (omega arith, (omega arith, (omega arith, (omega arith, overlapping-Below k))))

overlapping_end : (t : ℕ) → t < 2 → ((Racy.run Racy.start (overlapping 10000)).worker t).i ≡ rounds
unfolding Racy.run Racy.step Racy.act ℕ_discrete
overlapping_end zero h = refl
overlapping_end (suc zero) h = refl
overlapping_end (suc (suc t)) h = absurd (omega arith)

racy_counter_prints_example :
    (counter : ℕ) × (Racy.main cast always (codes "2" ∷ []) (overlapping 10000) ≡ some counter)
    × (2 ≤ counter)
    × (counter ≤ 2 * rounds)
racy_counter_prints_example =
    racy_counter_prints cast always (codes "2") 2 (overlapping 10000) refl (λ j. refl) (omega arith)
      (omega arith) (overlapping-Below 10000) overlapping_end

-- Half of the increments are lost; and `main` waits while a thread has not ended.
half_lost : Racy.main cast always (codes "2" ∷ []) (overlapping 10000) ≡ some 10000
unfolding Racy.main Racy.run Racy.step Racy.act launch joined ℕ_discrete
half_lost = refl

still_joining : Racy.main cast always (codes "2" ∷ []) (overlapping 1) ≡ none
unfolding Racy.main Racy.run Racy.step Racy.act launch joined ℕ_discrete
still_joining = refl

abbrev turns : ℕ → List ℕ
turns zero = []
turns (suc k) = 0 ∷ turns k

turns-Below : (k : ℕ) → Below 1 (turns k)
turns-Below zero = tt
turns-Below (suc k) = (omega arith, turns-Below k)

turns_end : (t : ℕ) → t < 1 → (Atomic.run Atomic.start (turns 10000)).i t ≡ rounds
unfolding Atomic.run Atomic.step ℕ_discrete
turns_end zero h = refl
turns_end (suc t) h = absurd (omega arith)

atomic_counter_prints_example :
    Atomic.main cast always (codes "1" ∷ []) (turns 10000) ≡ some (1 * rounds % 2 ^ 32)
atomic_counter_prints_example =
    atomic_counter_prints cast always (codes "1") 1 (turns 10000) refl (λ j. refl)
      (turns-Below 10000) turns_end

-- One thread with the mutex: four accesses to a round.
locked_turns_end :
    (t : ℕ)
    → t < 1
    → ((Locked.run bit_mutex (Locked.start bit_mutex) (turns 40000)).worker t).i ≡ rounds
unfolding Locked.run Locked.step Locked.act ℕ_discrete
locked_turns_end zero h = refl
locked_turns_end (suc t) h = absurd (omega arith)

locked_counter_prints_example :
    Locked.main bit_mutex cast always (codes "1" ∷ []) (turns 40000) ≡ some (1 * rounds % 2 ^ 32)
locked_counter_prints_example =
    locked_counter_prints bit_mutex cast always (codes "1") 1 (turns 40000) refl (λ j. refl)
      (turns-Below 40000) locked_turns_end
