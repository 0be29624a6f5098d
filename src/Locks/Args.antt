-- ===== src/Locks/Args.antt =====
-- project2/test_common.cpp, parse_args: the words of the command line. Texts are lists of character
-- codes.
pub mod Laws
mod Tests
use utd_cs6v81_spring.Base.{
  ℕ, Option, none, some, List, [], ◌∷◌, ◌++◌, Text, codes, same_text, max, drop, if◌then◌else◌,
}
use utd_cs6v81_spring.Harness.Args.{Boost, starts}
use utd_cs6v81_spring.Locks.Create.{
  LockType, test_taslock, test_ttaslock, test_backoff, test_alock, test_pthread, CommonArgs,
}

-- The lines on the error stream; the first of them starts with the program's name.
abbrev pub usage : Text → List Text
usage program =
    (program ++ codes " [num_threads] [<locktype>] [<other options>]")
    ∷ []
    ∷ codes "    locktype is one of:"
    ∷ codes "        TASLOCK  - Test And Set Lock"
    ∷ codes "        TTASLOCK - Test Test And Set Lock"
    ∷ codes "        BACKOFF  - exponential Backoff Lock"
    ∷ codes "        ALOCKVOLATILE    - Anderson Lock (array based) using a volatile bool array"
    ∷ codes "        ALOCKYIELD    - Anderson Lock (array based) using pthread_yield"
    ∷ codes "        PTHREAD    - pthread_mutex_t"
    ∷ []
    ∷ codes "    other options (in the form of OPTION=VALUE)"
    ∷ codes "        MINDELAY=<min> - set min delay for Backoff Lock        (uint32_t)"
    ∷ codes "        MAXDELAY=<max> - set max delay for Backoff Lock        (uint32_t)"
    ∷ codes "        SECONDS=<sec>  - set number of seconds for second_test (uint32_t)"
    ∷ []
    ∷ []

-- The end of `parse_args`: it returns, or it leaves the program by exit(-1) after the usage text.
pub data Parsed : Type 0 where
  parsed : CommonArgs → Parsed
  exited : (lines : List Text) → Parsed

-- `u32_cast`, or the exception that ends the loop.
abbrev pub set_number : (ℕ → CommonArgs) → Option ℕ → Option CommonArgs
set_number f none = none
set_number f (some n) = some (f n)

abbrev pub next_word : Option CommonArgs → (CommonArgs → Option CommonArgs) → Option CommonArgs
next_word none rest = none
next_word (some c) rest = rest c

abbrev pub finish : Text → Option CommonArgs → Parsed
finish program none = exited (usage program)
finish program (some c) = parsed (record c { max_delay = max c.min_delay c.max_delay })

module _ (b : Boost) where
  -- One word, `arg` as it is written and `s` in upper case.
  unfoldable pub parse_word : (arg s : Text) → CommonArgs → Option CommonArgs
  parse_word arg s c =
      if same_text s (codes "TASLOCK")
      then some (record c { locktype = test_taslock })
      else if same_text s (codes "TTASLOCK")
      then some (record c { locktype = test_ttaslock })
      else if same_text s (codes "BACKOFF")
      then some (record c { locktype = test_backoff })
      else if same_text s (codes "ALOCK")
      then some (record c { locktype = test_alock })
      else if same_text s (codes "PTHREAD")
      then some (record c { locktype = test_pthread })
      else if starts 9 (codes "MINDELAY=") s
      then set_number (λ n. record c { min_delay = n }) (b.lexical_cast (drop 9 s))
      else if starts 9 (codes "MAXDELAY=") s
      then set_number (λ n. record c { max_delay = n }) (b.lexical_cast (drop 9 s))
      else if starts 8 (codes "SECONDS=") s
      then set_number (λ n. record c { num_seconds = n }) (b.lexical_cast (drop 8 s))
      else set_number (λ n. record c { num_threads = n }) (b.lexical_cast arg)

  -- The loop over the words after the program's name.
  unfoldable pub parse_words : List Text → CommonArgs → Option CommonArgs
  unfolding parse_word
  parse_words [] c = some c
  parse_words (arg ∷ args) c = next_word (parse_word arg (b.to_upper arg) c) (parse_words args)

  unfoldable pub parse_args : Text → List Text → CommonArgs → Parsed
  unfolding parse_words
  parse_args program args c = finish program (parse_words args c)
