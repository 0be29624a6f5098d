-- ===== src/Locks/Args/Tests.antt =====
-- Command lines of the tests of project2.
use utd_cs6v81_spring.Base.{◌≤◌, ◌≡◌, refl, [], ◌∷◌, ◌++◌, codes, arith}
use utd_cs6v81_spring.Harness.Samples.{decimal, boost, boost-IsBoost}
use utd_cs6v81_spring.Locks.Create.{CommonArgs, default_args, test_backoff}
use utd_cs6v81_spring.Locks.Args.{parsed, exited, usage, parse_args, parse_words, parse_word}
use utd_cs6v81_spring.Locks.Args.Laws.{options_of, parse_args-options_of, parse_args_ordered}
use utd_cs6v81_spring.Locks.Samples.{decimal-IsDecimal}

abbrev swapped : CommonArgs
swapped = record default_args { locktype = test_backoff; min_delay = 9; max_delay = 4 }

parse_args-options_of_example :
    parse_args boost (codes "./simple") (options_of decimal swapped) default_args
    ≡ parsed (record swapped { max_delay = 9 })
parse_args-options_of_example =
    parse_args-options_of boost decimal (codes "./simple") swapped default_args boost-IsBoost
      decimal-IsDecimal
      (record {
        num_threads = omega arith;
        min_delay = omega arith;
        max_delay = omega arith;
        num_seconds = omega arith;
      })

parse_args_ordered_example : 200 ≤ 200
unfolding parse_args parse_words parse_word
parse_args_ordered_example =
    parse_args_ordered boost (codes "./simple") ((codes "mindelay=" ++ decimal 200) ∷ [])
      default_args (record default_args { min_delay = 200; max_delay = 200 }) refl

-- A word that the usage text promises.
volatile :
    parse_args boost (codes "./simple") (codes "ALOCKVOLATILE" ∷ []) default_args
    ≡ exited (usage (codes "./simple"))
unfolding parse_args parse_words parse_word
volatile = refl
