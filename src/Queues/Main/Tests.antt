-- ===== src/Queues/Main/Tests.antt =====
-- Options of part3, with numbers written in unary.
use utd_cs6v81_spring.Base.{
  ℕ, zero, suc, ◌≡◌, ◌≤◌, refl, true, false, length, Option, none, some, [], ◌∷◌, map, Text, codes,
  same_text, replicate, ◌==◌, arith, if◌then◌else◌,
}
use utd_cs6v81_spring.Locks.Samples.{bit_mutex}
use utd_cs6v81_spring.Queues.Main.{
  both, defaults, Library, bad_usage, undefined, option, options, Surroundings, returned_zero,
  joining, execute, main,
}
use utd_cs6v81_spring.Queues.Main.Options.{lower_case, IsLibrary}
use utd_cs6v81_spring.Queues.Main.Runs.{expected, main_runs}
use utd_cs6v81_spring.Queues
use utd_cs6v81_spring.Queues.Locked
use utd_cs6v81_spring.Queues.Locked.Tests.{signalled}

abbrev decimal : ℕ → Text
decimal zero = b'0' ∷ []
decimal (suc n) = b'1' ∷ decimal n

abbrev read : Text → Option ℕ
read [] = none
read (c ∷ s) = if c == b'0' then some 0 else elim (read s) [ none ↦ none | some n ↦ some (suc n) ]

abbrev library : Library
library = record {
  lexical_cast = read;
  iequals = λ s t. same_text (map lower_case s) (map lower_case t);
  decimal = decimal;
}

read-decimal : (n : ℕ) → read (decimal n) ≡ some n
read-decimal zero = refl
read-decimal (suc n) = rw (read-decimal n) refl

library-IsLibrary : IsLibrary library
library-IsLibrary = record { cast = λ n h. read-decimal n; caseless = λ s t. refl }

-- Two items through one slot, in each of the two queues.
abbrev surroundings : Surroundings
surroundings = record {
  memory = λ m. replicate m 0;
  locking_turns = signalled;
  lockfree_turns =
      true ∷ true ∷ true ∷ false ∷ false ∷ false ∷ true ∷ true ∷ true ∷ false ∷ false ∷ false ∷ [];
  locking_first = true;
  lockfree_first = false;
}

locking_ends :
    let q = Locked.run bit_mutex 2 (Locked.start bit_mutex (0 ∷ []) 1) signalled in
    (2 ≤ q.sent) × (2 ≤ length q.received)
unfolding Locked.run Locked.start Locked.step Locked.produce Locked.consume
locking_ends = (omega arith, omega arith)

lockfree_ends :
    let q = Queues.run 2 (Queues.start (0 ∷ []) 1) surroundings.lockfree_turns in
    (2 ≤ q.sent) × (2 ≤ length q.received)
unfolding Queues.run Queues.start
lockfree_ends = (omega arith, omega arith)

main_runs_example :
    main bit_mutex library surroundings
      (codes "./part3")
      (codes "-n" ∷ decimal 2 ∷ codes "-m" ∷ decimal 1 ∷ codes "-t" ∷ codes "Both" ∷ [])
    ≡ returned_zero (expected library surroundings 2 1 both)
main_runs_example =
    main_runs bit_mutex library surroundings (codes "./part3") (codes "Both") 2 1 both
      library-IsLibrary (omega arith) (omega arith) (omega arith) refl refl tt
      (λ kind. locking_ends) (λ kind. lockfree_ends)

-- A queue of no slots keeps both threads waiting.
no_slot :
    main bit_mutex library surroundings
      (codes "./part3")
      (codes "-n" ∷ decimal 2 ∷ codes "-m" ∷ decimal 0 ∷ codes "-t" ∷ codes "lockfree" ∷ [])
    ≡ joining
unfolding main execute options option Queues.run Queues.start
no_slot = refl

-- A word that is no option, and an option with no word after it.
not_an_option : options library (codes "-x" ∷ codes "3" ∷ []) defaults ≡ bad_usage
unfolding options option
not_an_option = refl

word_missing : options library (codes "-n" ∷ []) defaults ≡ undefined
unfolding options option
word_missing = refl
