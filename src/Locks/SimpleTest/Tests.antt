-- ===== src/Locks/SimpleTest/Tests.antt =====
-- The test with two threads.
use utd_cs6v81_spring.Base.{ℕ, ◌*◌, ◌≤◌, ◌<◌, ◌≡◌, refl, true, codes, List, [], ◌∷◌, arith}
use utd_cs6v81_spring.Base.Family.{tally}
use utd_cs6v81_spring.Locks.Algorithm.{Below}
use utd_cs6v81_spring.Locks.Create.{
  CommonArgs, default_args, test_alock, create_lock, create_lock_of,
}
use utd_cs6v81_spring.Locks.Spin.{tas_lock}
use utd_cs6v81_spring.Locks.Samples.{clean, decimal-IsDecimal}
use utd_cs6v81_spring.Harness.Samples.{decimal, boost, boost-IsBoost}
use utd_cs6v81_spring.Locks.Args.Laws.{options_of}
use utd_cs6v81_spring.Locks.SimpleTest.Main.{printed, main, simple_test_main}
use utd_cs6v81_spring.Locks.SimpleTest.{target, client_run, client_start}
use utd_cs6v81_spring.Locks.SimpleTest.Invariant.{written}
use utd_cs6v81_spring.Locks.SimpleTest.Result.{simple_test_counts, simple_test_finishes}

abbrev two : CommonArgs
two = record default_args { num_threads = 2 }

abbrev two_alock : CommonArgs
two_alock = record two { locktype = test_alock }

abbrev mixed : List ℕ
mixed = 0 ∷ 1 ∷ 1 ∷ 0 ∷ 0 ∷ 1 ∷ 1 ∷ 1 ∷ 1 ∷ 1 ∷ 1 ∷ 1 ∷ []

simple_test_counts_example :
    let s =
      client_run (create_lock clean two_alock) (client_start (create_lock clean two_alock)) mixed in
    (s.counter ≡ tally written 2 s.work) × ((i : ℕ) → i < 2 → written (s.work i) ≤ target)
simple_test_counts_example =
    simple_test_counts clean two_alock mixed refl (omega arith) (omega arith)

simple_test_finishes_example :
    (is : List ℕ) × Below 2 is
    × ((i : ℕ) → i < 2 → ((client_run tas_lock (client_start tas_lock) is).work i).rounds ≡ target)
    × ((client_run tas_lock (client_start tas_lock) is).counter ≡ 2 * target)
simple_test_finishes_example = simple_test_finishes 2 (omega arith)

simple_test_main_example :
    main clean boost
      (λ j. true)
      simple_test_finishes_example.0
      (codes "./simple")
      (options_of decimal two)
    ≡ printed (2 * target)
unfolding create_lock create_lock_of
simple_test_main_example =
    simple_test_main clean boost decimal (λ j. true) (codes "./simple") two
      simple_test_finishes_example.0 refl boost-IsBoost decimal-IsDecimal
      (record {
        num_threads = omega arith;
        min_delay = omega arith;
        max_delay = omega arith;
        num_seconds = omega arith;
      })
      (λ j. refl) simple_test_finishes_example.1 simple_test_finishes_example.2
