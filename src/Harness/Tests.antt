-- ===== src/Harness/Tests.antt =====
-- Command lines, and a run of two workers.
use utd_cs6v81_spring.Base.{ℕ, ◌+◌, ◌*◌, length, ◌≤◌, ◌<◌, ◌≡◌, refl, [], ◌∷◌, codes, arith}
use utd_cs6v81_spring.Times.{Timespec, nsec_sec}
use utd_cs6v81_spring.Times.Order.{nanoseconds}
use utd_cs6v81_spring.Harness.Launch.{
  lock_stack, lockfree_stack, elimination_stack, AllOn, delete_args, test_common, test_common_lem,
}
use utd_cs6v81_spring.Harness.Args.{
  usage, lock, lockfree, elimination, Options, default_options, parsed, exited, parse_args,
}
use utd_cs6v81_spring.Harness.Args.Laws.{command_line, parse_args-command_line}
use utd_cs6v81_spring.Harness.Samples.{decimal, boost, boost-IsBoost}

abbrev at_time : ℕ → Timespec
at_time t = record { tv_sec = t; tv_nsec = 0 }

abbrev defaults : Options
defaults = default_options (at_time 0) (at_time 0)

parse_args-command_line_example :
    parse_args boost (command_line decimal elimination 8 3) defaults
    ≡ parsed (record defaults { stacktype = elimination; numthreads = 8; seconds = 3 })
parse_args-command_line_example =
    parse_args-command_line boost decimal elimination 8 3 defaults boost-IsBoost (omega arith)
      (omega arith)

-- A word in lower case is read as in upper case, and HELP ends the program with status 0.
lower_case : parse_args boost (codes "lockfree" ∷ codes "help" ∷ []) defaults ≡ exited 0 usage
unfolding parse_args
lower_case = refl

test_common_lem_example :
    let o : Options = record defaults { numthreads = 3; seconds = 5 } in
    let now : Timespec = record { tv_sec = 70; tv_nsec = 900_000_000 } in
    let start : Timespec = record { tv_sec = 71; tv_nsec = 100_000_000 } in
    let l = test_common o now start in
    (length l.threads ≡ o.numthreads)
    × AllOn lock_stack o.numthreads (test_common (record o { stacktype = lock }) now start).threads
    × AllOn lockfree_stack o.numthreads
        (test_common (record o { stacktype = lockfree }) now start).threads
    × AllOn elimination_stack o.numthreads
        (test_common (record o { stacktype = elimination }) now start).threads
    × (nanoseconds l.before.starttime ≡ nanoseconds now + 100 * nsec_sec)
    × (nanoseconds start < nanoseconds l.after.starttime)
    × (nanoseconds l.after.starttime ≤ nanoseconds start + 2 * nsec_sec)
    × (nanoseconds l.after.stoptime ≡ nanoseconds l.after.starttime + o.seconds * nsec_sec)
    × (length (delete_args l.threads) ≡ o.numthreads)
test_common_lem_example =
    test_common_lem (record defaults { numthreads = 3; seconds = 5 })
      (record { tv_sec = 70; tv_nsec = 900_000_000 })
      (record { tv_sec = 71; tv_nsec = 100_000_000 }) (omega arith) (omega arith)
