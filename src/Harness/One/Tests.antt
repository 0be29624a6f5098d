-- ===== src/Harness/One/Tests.antt =====
-- One worker of testone, which pushes in every round.
use utd_cs6v81_spring.Base.{ℕ, zero, suc, ◌≡◌, Bool, true, false, codes, List, [], ◌∷◌}
use utd_cs6v81_spring.Times.{Timespec}
use utd_cs6v81_spring.Harness.One.Main.{main, testone_seed}
use utd_cs6v81_spring.Harness.Samples.{decimal, boost}
use utd_cs6v81_spring.Harness.Args.{lockfree, Options}
use utd_cs6v81_spring.Harness.Args.Laws.{asked}
use utd_cs6v81_spring.Harness.Debug.{Defined}
use utd_cs6v81_spring.Harness.Coins.{RealRandom}
use utd_cs6v81_spring.Harness.Main.{Printf}

-- A generator that always draws a number below 0.5, and numbers and texts written in unary.
abbrev heads : RealRandom
heads = record {
  Gen = ℕ;
  Real = Bool;
  fresh = 0;
  seeded = λ t. t;
  draw = λ low high g. (true, suc g);
  below_half = λ x. x;
}

abbrev unary : Printf
unary = record { lu = decimal; d = decimal }

abbrev quiet : Defined
quiet = record { proj_debug1 = false; proj_debug2 = false; proj_debug3 = false }

abbrev at_time : ℕ → Timespec
at_time t = record { tv_sec = t; tv_nsec = 0 }

abbrev moments : ℕ → List (ℕ × Timespec)
moments zero = []
moments (suc k) = (0, at_time 6) ∷ moments k

abbrev options : Options
options = asked lockfree 1 3 (at_time 0)

testone_seed_example :
    main heads boost unary quiet 1
      (at_time 0)
      (at_time 4)
      (at_time 4)
      (moments 9)
      (codes "lock" ∷ [])
    ≡ main heads boost unary quiet 2
        (at_time 0)
        (at_time 4)
        (at_time 4)
        (moments 9)
        (codes "lock" ∷ [])
testone_seed_example =
    testone_seed heads boost unary quiet 1 2 (at_time 0) (at_time 4) (at_time 4) (moments 9)
      (codes "lock" ∷ [])
