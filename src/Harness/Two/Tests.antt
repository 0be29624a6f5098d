-- ===== src/Harness/Two/Tests.antt =====
-- Two workers of testtwo, for a generator whose draws fall below 0.5 in turn.
use utd_cs6v81_spring.Base.{
  ℕ, zero, suc, ◌+◌, ◌-◌, ◌%◌, ◌^◌, ◌<◌, ◌≡◌, refl, Bool, true, false, List, [], ◌∷◌, length, codes,
  arith, ℕ_discrete, if◌then◌else◌,
}
use utd_cs6v81_spring.Base.Family.{tally}
use utd_cs6v81_spring.Times.{Timespec, less}
use utd_cs6v81_spring.Harness.Samples.{decimal, boost, boost-IsBoost}
use utd_cs6v81_spring.Harness.Args.{lockfree, Options, parse_args}
use utd_cs6v81_spring.Harness.Args.Laws.{asked, command_line}
use utd_cs6v81_spring.Harness.Launch.{test_common, armed, released}
use utd_cs6v81_spring.Harness.Debug.{Defined, shown, is_on}
use utd_cs6v81_spring.Harness.Coins.{RealRandom, with_coins, toss, seed_gen, globals}
use utd_cs6v81_spring.Harness.Main.{Printf, returned_zero, joined}
use utd_cs6v81_spring.Harness.Rounds.{round, leftover}
use utd_cs6v81_spring.Harness.Two.{finished, run, step, act, finish}
use utd_cs6v81_spring.Harness.Two.Totals.{pushes, pops}
use utd_cs6v81_spring.Harness.Two.Main.{ran, dealt, work, main, report, output, testtwo_main}

abbrev alternating : RealRandom
alternating = record {
  Gen = Bool;
  Real = Bool;
  fresh = true;
  seeded = λ t. false;
  draw = λ low high g. (g, if g then false else true);
  below_half = λ x. x;
}

abbrev unary : Printf
unary = record { lu = decimal; d = decimal }

-- A build with PROJ_DEBUG1.
abbrev counted : Defined
counted = record { proj_debug1 = true; proj_debug2 = false; proj_debug3 = false }

abbrev at_time : ℕ → Timespec
at_time t = record { tv_sec = t; tv_nsec = 0 }

abbrev turns : ℕ → ℕ → List (ℕ × Timespec) → List (ℕ × Timespec)
turns i zero rest = rest
turns i (suc k) rest = (i, at_time 6) ∷ turns i k rest

-- Thread 0 pushes, thread 1 pops, and thread 0 pushes again after the clock has passed the stop; then
-- thread 1 pops once more.
abbrev moments : List (ℕ × Timespec)
moments =
    (0, at_time 5) ∷ (1, at_time 5) ∷ (0, at_time 5) ∷ (1, at_time 5) ∷ turns 0 4 (turns 1 4 [])

abbrev options : Options
options = asked lockfree 2 1 (at_time 0)

moments_end :
    (i : ℕ)
    → i < 2
    → ((ran alternating
          (at_time 4)
          (at_time 4)
          options
          (dealt alternating (at_time 4) (at_time 4) options 77 moments)).worker
        i).place
      ≡ finished
unfolding ran dealt with_coins toss seed_gen globals run step act less round test_common armed
    released ℕ_discrete
moments_end zero h = refl
moments_end (suc zero) h = refl
moments_end (suc (suc i)) h = absurd (omega arith)

testtwo_main_example :
    let s =
      ran alternating
        (at_time 4)
        (at_time 4)
        options
        (dealt alternating (at_time 4) (at_time 4) options 77 moments) in
    let pushed = tally pushes 2 s.worker in
    let popped = tally pops 2 s.worker in
    (length s.shared.stack + popped ≡ pushed)
    × (main alternating boost unary counted 77
          (at_time 0)
          (at_time 4)
          (at_time 4)
          moments
          (command_line decimal lockfree 2 1)
        ≡ returned_zero (
            output unary counted s.shared.stack
              (pushed % 2 ^ 64)
              (popped % 2 ^ 64)
              ((pushed - popped) % 2 ^ 64)
              ((pushed + popped) % 2 ^ 64)
              (pushed % 2 ^ 64)))
testtwo_main_example =
    testtwo_main alternating boost unary counted decimal lockfree 2 1 77 (at_time 0) (at_time 4)
      (at_time 4) moments boost-IsBoost (λ e. cc) (omega arith) (omega arith) (omega arith)
      (omega arith) moments_end

-- Numbers are in unary, before a 0.
lines_printed :
    main alternating boost unary counted 77
      (at_time 0)
      (at_time 4)
      (at_time 4)
      moments
      (command_line decimal lockfree 2 1)
    ≡ returned_zero (
        codes "110 pushed, 110 popped, 0 leftover"
        ∷ codes "11110 stack operations... 110 allocs"
        ∷ [])
unfolding main work joined report shown is_on ran dealt with_coins toss seed_gen globals run step
    act finish leftover less round parse_args test_common armed released ℕ_discrete
lines_printed = refl
