-- ===== src/Locks/SecondTest/Tests.antt =====
-- Two threads of second_test with a pthread mutex, each of which counts once.
use utd_cs6v81_spring.Base.{
  ℕ, zero, suc, ℕ_discrete, ◌%◌, ◌^◌, ◌<◌, ◌≡◌, refl, true, List, [], ◌∷◌, ◌++◌, codes, arith,
}
use utd_cs6v81_spring.Base.Family.{tally}
use utd_cs6v81_spring.Times.{Timespec, ts_lt, ts_sub}
use utd_cs6v81_spring.Harness.Samples.{decimal, boost, boost-IsBoost}
use utd_cs6v81_spring.Locks.Algorithm.{step, move}
use utd_cs6v81_spring.Locks.Samples.{clean, decimal-IsDecimal}
use utd_cs6v81_spring.Locks.Spin.{pthread_lock_step, pthread_unlock_step}
use utd_cs6v81_spring.Locks.Create.{
  CommonArgs, default_args, test_pthread, create_lock, create_lock_of,
}
use utd_cs6v81_spring.Locks.Args.Laws.{options_of}
use utd_cs6v81_spring.Locks.SecondTest.{
  finished, client_run, client_step, act, inside_act, outside_act,
}
use utd_cs6v81_spring.Locks.SecondTest.Main.{
  ran, main, returned, shown, delayed, sum_of, tcounter_of, tnsec_of, second_test_main,
}

abbrev at_time : ℕ → Timespec
at_time t = record { tv_sec = t; tv_nsec = 0 }

abbrev turns : ℕ → ℕ → ℕ → List (ℕ × Timespec) → List (ℕ × Timespec)
turns i t zero rest = rest
turns i t (suc k) rest = (i, at_time t) ∷ turns i t k rest

-- The start is at 5 and the stop at 6. Thread 1 waits for the mutex while thread 0 has it.
abbrev moments : List (ℕ × Timespec)
moments =
    turns 0 5 3
      (turns 1 5 2 (turns 0 6 4 (turns 1 6 2 (turns 0 6 5 (turns 1 6 12 (turns 0 6 2 []))))))

abbrev two : CommonArgs
two = record default_args { num_threads = 2; locktype = test_pthread }

moments_end :
    (i : ℕ)
    → i < 2
    → ((ran clean boost decimal (λ j. true) (at_time 0) (at_time 4) (at_time 7) moments two).work
        i).place
      ≡ finished
unfolding ran client_run client_step act inside_act outside_act step move create_lock create_lock_of
    pthread_lock_step pthread_unlock_step ts_lt ts_sub ℕ_discrete
moments_end zero h = refl
moments_end (suc zero) h = refl
moments_end (suc (suc i)) h = absurd (omega arith)

second_test_main_example :
    let s = ran clean boost decimal (λ j. true) (at_time 0) (at_time 4) (at_time 7) moments two in
    (s.counter ≡ tally tcounter_of 2 s.work % 2 ^ 64)
    × (main clean boost decimal
          (λ j. true)
          (at_time 0)
          (at_time 4)
          (at_time 7)
          moments
          (codes "./second")
          (options_of decimal two)
        ≡ returned 0 (
            (codes "Test Start : " ++ shown decimal (delayed (at_time 4) 1))
            ∷ (codes " Test Stop : " ++ shown decimal (at_time 7))
            ∷ (codes "counter is: " ++ decimal s.counter)
            ∷ (codes "total_nsec: " ++ decimal (sum_of tnsec_of 2 s.work))
            ∷ []))
second_test_main_example =
    second_test_main clean boost decimal (λ j. true) (at_time 0) (at_time 4) (at_time 7)
      (codes "./second") two moments refl boost-IsBoost decimal-IsDecimal
      (record {
        num_threads = omega arith;
        min_delay = omega arith;
        max_delay = omega arith;
        num_seconds = omega arith;
      })
      (λ j. refl) (omega arith) (omega arith) moments_end
