-- ===== src/Harness/Args/Laws.antt =====
-- The command line, word after word, and options written as words.
use utd_cs6v81_spring.Base.{
  ℕ, ◌^◌, ◌<◌, ◌≡◌, refl, ap, sym, ◌∙◌, Bool, false, ◌||◌, ◌&&◌, some, List, [], ◌∷◌, ◌++◌, Text,
  codes, leb,
}
use mathlib.Core.Path.{fun_ext}
use utd_cs6v81_spring.Times.{Timespec}
use utd_cs6v81_spring.Harness.Args.{
  StackType, lock, lockfree, elimination, Options, Boost, Parsed, parsed, exited, uncaught,
  continue, default_options, parse_arg, parse_args,
}

continue_assoc :
    (p : Parsed) (f g : Options → Parsed)
    → continue (continue p f) g ≡ continue p (λ o. continue (f o) g)
continue_assoc (parsed o) f g = refl
continue_assoc (exited status lines) f g = refl
continue_assoc uncaught f g = refl

-- The words of a command line act one after the other: a first part that parses leaves its options to
-- the rest, and one that ends the program ends it with the same status and the same lines whatever
-- follows.
parse_args-append :
    (b : Boost) (first rest : List Text) (o : Options)
    → parse_args b (first ++ rest) o ≡ continue (parse_args b first o) (parse_args b rest)
unfolding parse_args
parse_args-append b [] rest o = refl
parse_args-append b (arg ∷ first) rest o =
    ap (continue (parse_arg b (b.to_upper arg) o)) (fun_ext (parse_args-append b first rest))
    ∙ sym (continue_assoc (parse_arg b (b.to_upper arg) o) (parse_args b first) (parse_args b rest))

abbrev is_lower : ℕ → Bool
is_lower c = leb b'a' c && leb c b'z'

abbrev pub has_lower : Text → Bool
has_lower [] = false
has_lower (c ∷ s) = is_lower c || has_lower s

-- What boost documents, for a way `decimal` to write numbers: `to_upper` keeps a text that has no
-- lower-case letter, and `lexical_cast` reads a number that fits, as it is written.
pub record IsBoost (b : Boost) (decimal : ℕ → Text) : Type 0 where
  pub upper : (s : Text) → has_lower s ≡ false → b.to_upper s ≡ s
  pub digits : (n : ℕ) → has_lower (decimal n) ≡ false
  pub cast : (n : ℕ) → n < 2 ^ 32 → b.lexical_cast (decimal n) ≡ some n

abbrev pub name : StackType → Text
name lock = codes "LOCK"
name lockfree = codes "LOCKFREE"
name elimination = codes "ELIMINATION"

-- Options as words of a command line.
abbrev pub command_line : (ℕ → Text) → StackType → (numthreads seconds : ℕ) → List Text
command_line decimal t numthreads seconds =
    name t
    ∷ (codes "NUMTHREADS=" ++ decimal numthreads)
    ∷ (codes "SECONDS=" ++ decimal seconds)
    ∷ []

-- The options that they stand for; `unset` stands for times that are not set.
abbrev pub asked : StackType → (numthreads seconds : ℕ) → Timespec → Options
asked t numthreads seconds unset = record (default_options unset unset) {
  stacktype = t;
  numthreads = numthreads;
  seconds = seconds;
}

module _ (b : Boost) (decimal : ℕ → Text) (l : IsBoost b decimal) where
  name_word :
      (t : StackType) (o : Options)
      → parse_arg b (b.to_upper (name t)) o ≡ parsed (record o { stacktype = t })
  unfolding parse_arg
  name_word lock o = rw (l.upper (name lock) refl) refl
  name_word lockfree o = rw (l.upper (name lockfree) refl) refl
  name_word elimination o = rw (l.upper (name elimination) refl) refl

  numthreads_word :
      (n : ℕ) (o : Options)
      → n < 2 ^ 32
      → parse_arg b (b.to_upper (codes "NUMTHREADS=" ++ decimal n)) o
        ≡ parsed (record o { numthreads = n })
  unfolding parse_arg
  numthreads_word n o h =
      rw (l.upper (codes "NUMTHREADS=" ++ decimal n) (l.digits n), l.cast n h) refl

  seconds_word :
      (n : ℕ) (o : Options)
      → n < 2 ^ 32
      → parse_arg b (b.to_upper (codes "SECONDS=" ++ decimal n)) o
        ≡ parsed (record o { seconds = n })
  unfolding parse_arg
  seconds_word n o h = rw (l.upper (codes "SECONDS=" ++ decimal n) (l.digits n), l.cast n h) refl

-- Any stack type and any numbers of threads and seconds that fit in 32 bits, written on the command
-- line, are the options that `parseArgs` returns, whatever they were before.
pub parse_args-command_line :
    (b : Boost) (decimal : ℕ → Text) (t : StackType) (numthreads seconds : ℕ) (o : Options)
    → IsBoost b decimal
    → numthreads < 2 ^ 32
    → seconds < 2 ^ 32
    → parse_args b (command_line decimal t numthreads seconds) o
      ≡ parsed (record o { stacktype = t; numthreads = numthreads; seconds = seconds })
unfolding parse_args
parse_args-command_line b decimal t numthreads seconds o l h k =
    rw
      (
        name_word b decimal l t o,
        numthreads_word b decimal l numthreads _ h,
        seconds_word b decimal l seconds _ k,
      )
      refl
