-- ===== src/Exchange/Tests.antt =====
-- Two threads on one slot: the first offers the node 40, and the second, which pops, takes it.
use utd_cs6v81_spring.Base.{
  ℕ, zero, suc, ℕ_discrete, some, ◌↔◌, ◌%◌, ◌<◌, ◌≡◌, refl, true, false, List, [], ◌∷◌, arith,
  if◌then◌else◌, ◌==◌,
}
use utd_cs6v81_spring.Base.Family.{Within, tally}
use utd_cs6v81_spring.Times.{Timespec, less, greater}
use utd_cs6v81_spring.Exchange.{returned, timed_out, bound_from, start, step, run, move}
use utd_cs6v81_spring.Exchange.Slot.{word, get, compare_and_set, empty, waiting, slot_round_trip}
use utd_cs6v81_spring.Exchange.Steps.{holds}
use utd_cs6v81_spring.Exchange.Conserves.{
  total, offered, Finished, exchange_conserves, exchange_permutes,
}
use utd_cs6v81_spring.Exchange.Alone.{turns_of, exchange_times_out}

abbrev at_time : ℕ → Timespec
at_time t = record { tv_sec = 7; tv_nsec = t }

abbrev offers : ℕ → ℕ
offers i = if i == 0 then 40 else 0

abbrev meeting : List (ℕ × Timespec)
meeting =
    (0, at_time 0)
    ∷ (1, at_time 10)
    ∷ (0, at_time 20)
    ∷ (0, at_time 30)
    ∷ (0, at_time 40)
    ∷ (1, at_time 50)
    ∷ (1, at_time 60)
    ∷ (1, at_time 70)
    ∷ (0, at_time 80)
    ∷ (0, at_time 90)
    ∷ (0, at_time 100)
    ∷ []

offers_aligned : (i : ℕ) → i < 2 → offers i % 4 ≡ 0
offers_aligned i h = ground arith

meeting-Within : Within 2 meeting
meeting-Within = ground arith

exchange_conserves_example : total 2 40 (run (start offers) meeting) ≡ offered 2 40 offers
exchange_conserves_example = exchange_conserves 2 offers meeting 40 offers_aligned meeting-Within

meeting_ends : (i : ℕ) → i < 2 → Finished ((run (start offers) meeting).pc i)
unfolding run step move get compare_and_set less greater word ℕ_discrete
meeting_ends zero h = tt
meeting_ends (suc zero) h = tt
meeting_ends (suc (suc i)) h = absurd (omega arith)

exchange_permutes_example :
    let s = run (start offers) meeting in
    (s.slot ≡ 0) × (tally (holds 0) 2 s.pc ≡ offered 2 0 offers)
exchange_permutes_example =
    exchange_permutes 2 offers meeting 0 offers_aligned meeting-Within meeting_ends

traded :
    ((run (start offers) meeting).pc 0 ≡ returned 0)
    × ((run (start offers) meeting).pc 1 ≡ returned 40)
unfolding run step move get compare_and_set less greater word ℕ_discrete
traded = (refl, refl)

early : less (at_time 20) (bound_from (at_time 0)) ≡ true
unfolding less
early = refl

late : less (at_time 600) (bound_from (at_time 0)) ≡ false
unfolding less
late = refl

exchange_times_out_example :
    let t = run (start offers) (
      turns_of 0 (
        at_time 0
        ∷ at_time 20
        ∷ at_time 30
        ∷ at_time 30
        ∷ at_time 600
        ∷ at_time 30
        ∷ at_time 30
        ∷ [])) in
    (t.slot ≡ 0) × (t.pc 0 ≡ timed_out 40)
exchange_times_out_example =
    exchange_times_out 40 (start offers) 0 (at_time 0) (at_time 20) (at_time 600) (at_time 30) refl
      refl refl early late

slot_round_trip_example :
    (get (word 40 waiting) ≡ (40, some waiting))
    × (((compare_and_set (word 40 waiting) 40 0 waiting empty).0 ≡ true)
        ↔ ((◌≡◌ {A = ℕ} 40 40) × (waiting ≡ waiting)))
slot_round_trip_example = slot_round_trip 40 40 0 waiting waiting empty refl refl
