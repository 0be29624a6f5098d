-- ===== src/Harness/Args.antt =====
-- project3/TestCommon.cpp, usage and parseArgs: the words of the command line. Texts are lists of
-- character codes.
pub mod Laws
use utd_cs6v81_spring.Base.{
  ℕ, ◌++◌, Bool, Option, none, some, List, [], ◌∷◌, Text, codes, same_text, take, drop,
  if◌then◌else◌,
}
use utd_cs6v81_spring.Times.{Timespec}

pub data StackType : Type 0 where
  lock lockfree elimination : StackType

pub record Options : Type 0 where
  pub stacktype : StackType
  pub numthreads : ℕ  -- uint32_t
  pub seconds : ℕ  -- uint32_t
  pub starttime : Timespec
  pub stoptime : Timespec

-- What `parseArgs` takes from boost: `to_upper`, and `lexical_cast<uint32_t>`, which throws
-- bad_lexical_cast where it gives `none` here.
pub record Boost : Type 0 where
  pub to_upper : Text → Text
  pub lexical_cast : Text → Option ℕ

-- The constructor; the times are not set.
abbrev pub default_options : (starttime stoptime : Timespec) → Options
default_options starttime stoptime = record {
  stacktype = lock;
  numthreads = 2;
  seconds = 1;
  starttime = starttime;
  stoptime = stoptime;
}

-- `usage`: its lines on the error stream.
abbrev pub usage : List Text
usage =
    codes "USAGE:"
    ∷ codes
        "   testone [LOCK|LOCKFREE|ELIMINATION] [NUMTHREADS=<threads>] [SECONDS=<seconds>] [HELP]"
    ∷ codes "   LOCK        uses the locking stack"
    ∷ codes "   LOCKFREE    uses the lockfree stack"
    ∷ codes "   ELIMINATION uses the elimination backoff stack"
    ∷ codes "   SECONDS     determines how long the test runs"
    ∷ codes "   NUMTHREADS  determines how many threads run"
    ∷ codes "   HELP        prints this message and exits"
    ∷ []

-- The end of `parseArgs`: it returns, or it leaves the program by `exit` after some lines on the
-- error stream, or by an exception that nothing catches.
pub data Parsed : Type 0 where
  parsed : Options → Parsed
  exited : (status : ℕ) (lines : List Text) → Parsed
  uncaught : Parsed

-- `arg.compare(0, n, word) == 0`
abbrev pub starts : ℕ → Text → Text → Bool
starts n word arg = same_text (take n arg) word

-- What one word of the command line, in upper case, does to the options.
abbrev pub set_number : (ℕ → Options) → Option ℕ → Parsed
set_number f none = uncaught
set_number f (some n) = parsed (f n)

-- The rest of the loop, if a word has not ended the program.
abbrev pub continue : Parsed → (Options → Parsed) → Parsed
continue (parsed o) rest = rest o
continue (exited status lines) rest = exited status lines
continue uncaught rest = uncaught

module _ (b : Boost) where
  unfoldable pub parse_arg : Text → Options → Parsed
  parse_arg arg o =
      if same_text arg (codes "LOCK")
      then parsed (record o { stacktype = lock })
      else if same_text arg (codes "LOCKFREE")
      then parsed (record o { stacktype = lockfree })
      else if same_text arg (codes "ELIMINATION")
      then parsed (record o { stacktype = elimination })
      else if starts 8 (codes "SECONDS=") arg
      then set_number (λ n. record o { seconds = n }) (b.lexical_cast (drop 8 arg))
      else if starts 11 (codes "NUMTHREADS=") arg
      then set_number (λ n. record o { numthreads = n }) (b.lexical_cast (drop 11 arg))
      else if starts 4 (codes "HELP") arg
      then exited 0 usage
      else exited 1 ((codes "BAD ARG: " ++ arg) ∷ usage)

  -- The loop over the words after the program's name.
  unfoldable pub parse_args : List Text → Options → Parsed
  unfolding parse_arg
  parse_args [] o = parsed o
  parse_args (arg ∷ args) o = continue (parse_arg (b.to_upper arg) o) (parse_args args)
