-- ===== src/Locks/Args/Laws.antt =====
-- Options of the tests of project2 written as words, and what holds of those that are accepted.
use utd_cs6v81_spring.Base.{
  ℕ, ◌^◌, ◌≤◌, ◌<◌, ◌≡◌, refl, ap, sym, ◌∙◌, Option, none, some, List, [], ◌∷◌, ◌++◌, Text, codes,
  max, arith,
}
use utd_cs6v81_spring.Harness.Args.{Boost}
use utd_cs6v81_spring.Harness.Args.Laws.{IsBoost}
use utd_cs6v81_spring.Locks.Create.{
  LockType, test_taslock, test_ttaslock, test_backoff, test_alock, test_pthread, CommonArgs,
}
use utd_cs6v81_spring.Locks.Args.{
  Parsed, parsed, exited, finish, parse_word, parse_words, parse_args,
}

abbrev pub lock_name : LockType → Text
lock_name test_taslock = codes "TASLOCK"
lock_name test_ttaslock = codes "TTASLOCK"
lock_name test_backoff = codes "BACKOFF"
lock_name test_alock = codes "ALOCK"
lock_name test_pthread = codes "PTHREAD"

-- How `decimal` writes numbers: a digit stands first.
pub record IsDecimal (decimal : ℕ → Text) : Type 0 where
  pub first : (n : ℕ) → (d : ℕ) × (rest : Text) × (decimal n ≡ d ∷ rest) × (d < b'A')

-- The words for some arguments.
abbrev pub options_of : (ℕ → Text) → CommonArgs → List Text
options_of decimal c =
    decimal c.num_threads
    ∷ lock_name c.locktype
    ∷ (codes "MINDELAY=" ++ decimal c.min_delay)
    ∷ (codes "MAXDELAY=" ++ decimal c.max_delay)
    ∷ (codes "SECONDS=" ++ decimal c.num_seconds)
    ∷ []

pub record Fits (c : CommonArgs) : Type 0 where
  pub num_threads : c.num_threads < 2 ^ 32
  pub min_delay : c.min_delay < 2 ^ 32
  pub max_delay : c.max_delay < 2 ^ 32
  pub num_seconds : c.num_seconds < 2 ^ 32

module _ (b : Boost) (decimal : ℕ → Text) (l : IsBoost b decimal) where
  name_word :
      (t : LockType) (c : CommonArgs)
      → parse_word b (lock_name t) (b.to_upper (lock_name t)) c ≡ some (record c { locktype = t })
  unfolding parse_word
  name_word test_taslock c = rw (l.upper (codes "TASLOCK") refl) refl
  name_word test_ttaslock c = rw (l.upper (codes "TTASLOCK") refl) refl
  name_word test_backoff c = rw (l.upper (codes "BACKOFF") refl) refl
  name_word test_alock c = rw (l.upper (codes "ALOCK") refl) refl
  name_word test_pthread c = rw (l.upper (codes "PTHREAD") refl) refl

  min_word :
      (n : ℕ) (c : CommonArgs)
      → n < 2 ^ 32
      → let word = codes "MINDELAY=" ++ decimal n in
        parse_word b word (b.to_upper word) c ≡ some (record c { min_delay = n })
  unfolding parse_word
  min_word n c h = rw (l.upper (codes "MINDELAY=" ++ decimal n) (l.digits n), l.cast n h) refl

  max_word :
      (n : ℕ) (c : CommonArgs)
      → n < 2 ^ 32
      → let word = codes "MAXDELAY=" ++ decimal n in
        parse_word b word (b.to_upper word) c ≡ some (record c { max_delay = n })
  unfolding parse_word
  max_word n c h = rw (l.upper (codes "MAXDELAY=" ++ decimal n) (l.digits n), l.cast n h) refl

  seconds_word :
      (n : ℕ) (c : CommonArgs)
      → n < 2 ^ 32
      → let word = codes "SECONDS=" ++ decimal n in
        parse_word b word (b.to_upper word) c ≡ some (record c { num_seconds = n })
  unfolding parse_word
  seconds_word n c h = rw (l.upper (codes "SECONDS=" ++ decimal n) (l.digits n), l.cast n h) refl

-- A number starts with a digit, so it is none of the other words.
module _ (b : Boost) (c : CommonArgs) (d : ℕ) (rest : Text) (digit : d < b'A') where
  number_word :
      (n : ℕ)
      → b.lexical_cast (d ∷ rest) ≡ some n
      → parse_word b (d ∷ rest) (d ∷ rest) c ≡ some (record c { num_threads = n })
  unfolding parse_word
  number_word n e = ground (arith, e)

decimal_word :
    (b : Boost) (decimal : ℕ → Text) (n : ℕ) (c : CommonArgs)
    → IsBoost b decimal
    → IsDecimal decimal
    → n < 2 ^ 32
    → parse_word b (decimal n) (b.to_upper (decimal n)) c ≡ some (record c { num_threads = n })
decimal_word b decimal n c l digits h =
    let (d, rest, e, small) = digits.first n in
    let cast : b.lexical_cast (d ∷ rest) ≡ some n = ap b.lexical_cast (sym e) ∙ l.cast n h in
    rw (l.upper (decimal n) (l.digits n), e) (number_word b c d rest small n cast)

-- Any numbers of threads and seconds, kind of lock and delays, the numbers of 32 bits, written on
-- the command line, are what `parse_args` returns, whatever was set before; only a largest delay
-- below the least one is raised to it.
pub parse_args-options_of :
    (b : Boost) (decimal : ℕ → Text) (program : Text) (c old : CommonArgs)
    → IsBoost b decimal
    → IsDecimal decimal
    → Fits c
    → parse_args b program (options_of decimal c) old
      ≡ parsed (record c { max_delay = max c.min_delay c.max_delay })
unfolding parse_args parse_words
parse_args-options_of b decimal program c old l digits fits =
    rw
      (
        decimal_word b decimal c.num_threads old l digits fits.num_threads,
        name_word b decimal l c.locktype _,
        min_word b decimal l c.min_delay _ fits.min_delay,
        max_word b decimal l c.max_delay _ fits.max_delay,
        seconds_word b decimal l c.num_seconds _ fits.num_seconds,
      )
      refl

abbrev least : Parsed → ℕ
least (parsed c) = c.min_delay
least (exited lines) = 0

abbrev most : Parsed → ℕ
most (parsed c) = c.max_delay
most (exited lines) = 0

finish-parsed :
    (program : Text) (o : Option CommonArgs) (c : CommonArgs)
    → finish program o ≡ parsed c
    → c.min_delay ≤ c.max_delay
finish-parsed program none c e = omega (arith, ap least e, ap most e)
finish-parsed program (some d) c e = omega (arith, ap least e, ap most e)

-- Whatever the words and the arguments before them, when `parse_args` returns, the least delay is
-- at most the largest one, as BackoffLock needs it.
pub parse_args_ordered :
    (b : Boost) (program : Text) (words : List Text) (old c : CommonArgs)
    → parse_args b program words old ≡ parsed c
    → c.min_delay ≤ c.max_delay
unfolding parse_args
parse_args_ordered b program words old c e = finish-parsed program (parse_words b words old) c e
