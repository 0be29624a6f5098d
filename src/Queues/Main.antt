-- ===== src/Queues/Main.antt =====
-- project1/part3.cpp, main: its options, the queues that it runs, and what it prints.
pub mod Options
pub mod Ends
pub mod Runs
mod Tests
use utd_cs6v81_spring.Base.{
  ℕ, ◌+◌, ◌^◌, Bool, true, false, Option, none, some, List, [], ◌∷◌, ◌++◌, ◌||◌, Text, codes,
  same_text, ltb, leb, length, ◌&&◌, if◌then◌else◌,
}
use utd_cs6v81_spring.Locks.Spin.{Mutex}
use utd_cs6v81_spring.Queues
use utd_cs6v81_spring.Queues.Locked
use utd_cs6v81_spring.Queues.Locked.{Turn}

pub data QueueType : Type 0 where
  both locking lockfree : QueueType

pub record Settings : Type 0 where
  pub n : ℕ  -- uint32_t
  pub m : ℕ  -- uint32_t
  pub type : QueueType

abbrev pub defaults : Settings
defaults = record { n = 200_000; m = 100; type = both }

-- What `main` takes from boost, lexical_cast<uint32_t> and iequals, and how a stream prints a number.
pub record Library : Type 0 where
  pub lexical_cast : Text → Option ℕ
  pub iequals : Text → Text → Bool
  pub decimal : ℕ → Text

-- How the loop over the words ends: with settings, with -1 after the usage text, with an exception
-- that nothing catches, or with no behaviour defined where the word after an option is missing.
pub data Chosen : Type 0 where
  chosen : Settings → Chosen
  bad_usage : Chosen
  uncaught : Chosen
  undefined : Chosen

-- The type after `-t`; a word that names none leaves it as it is.
abbrev pub type_named : Library → Text → QueueType → QueueType
type_named l word old =
    if l.iequals (codes "lock") word
    then locking
    else if l.iequals (codes "lockfree") word
    then lockfree
    else if l.iequals (codes "both") word
    then both
    else old

abbrev pub with_number : (ℕ → Settings) → Option ℕ → Chosen
with_number f none = uncaught
with_number f (some k) = chosen (f k)

-- An option with the word after it.
unfoldable pub option : Library → (name word : Text) → Settings → Chosen
option l name word s =
    if same_text name (codes "-n")
    then with_number (λ k. record s { n = k }) (l.lexical_cast word)
    else if same_text name (codes "-m")
    then with_number (λ k. record s { m = k }) (l.lexical_cast word)
    else if same_text name (codes "-t")
    then chosen (record s { type = type_named l word s.type })
    else bad_usage

abbrev pub next_option : Chosen → (Settings → Chosen) → Chosen
next_option (chosen s) rest = rest s
next_option bad_usage rest = bad_usage
next_option uncaught rest = uncaught
next_option undefined rest = undefined

abbrev pub is_option : Text → Bool
is_option name =
    same_text name (codes "-n") || same_text name (codes "-m") || same_text name (codes "-t")

-- The loop over the words after the program's name.
unfoldable pub options : Library → List Text → Settings → Chosen
unfolding option
options l [] s = chosen s
options l (name ∷ []) s = if is_option name then undefined else bad_usage
options l (name ∷ word ∷ rest) s = next_option (option l name word s) (options l rest)

-- The lines on the error stream; the first of them starts with the program's name.
abbrev pub usage : Text → List Text
usage program =
    codes "Incorrect Usage:"
    ∷ (program ++ codes " [-n <number of items>] [-m <queue size>] [-t <type>]")
    ∷ codes "Where type is one of the following: lock, lockfree"
    ∷ codes "If no options are provided the defaults are:"
    ∷ codes "n=200000, m=100, type=BOTH"
    ∷ []

abbrev pub runs_locking : QueueType → Bool
runs_locking both = true
runs_locking locking = true
runs_locking lockfree = false

abbrev pub runs_lockfree : QueueType → Bool
runs_lockfree both = true
runs_lockfree locking = false
runs_lockfree lockfree = true

-- The lines for one queue, whose name is given. The two threads print in either order.
abbrev pub queue_lines : Library → Text → (producer_first : Bool) → ℕ → List Text
queue_lines l title producer_first n =
    let producer = codes "   Producer: enqueued " ++ l.decimal n ++ codes " items" in
    let consumer = codes "   Consumer: dequeued " ++ l.decimal n ++ codes " items" in
    title
    ∷ codes "   Creating producer and consumer..."
    ∷ (if producer_first then producer else consumer)
    ∷ (if producer_first then consumer else producer)
    ∷ codes "   Producer and Consumer stopped."
    ∷ []

-- What the surroundings decide: the memory of the new arrays, the order of the threads' steps, and
-- which thread prints first.
pub record Surroundings : Type 0 where
  pub memory : ℕ → List ℕ
  pub locking_turns : List Turn
  pub lockfree_turns : List Bool
  pub locking_first : Bool
  pub lockfree_first : Bool

-- What a queue that is run leaves: the lines, what `dequeue` has returned to the consumer, and
-- whether both threads can be joined.
pub record Part : Type 0 where
  pub lines : List Text
  pub taken : List ℕ
  pub joined : Bool

-- Both loops of `n` rounds have ended.
abbrev pub ended : (n sent : ℕ) (received : List ℕ) → Bool
ended n sent received = leb n sent && leb n (length received)

-- The lines printed, and what the consumer of each queue that was run has got.
pub record Ran : Type 0 where
  pub lines : List Text
  pub locking_taken : Option (List ℕ)
  pub lockfree_taken : Option (List ℕ)

-- The end of `main`: its value with the error lines, or what has run; `joining` while it waits for a
-- thread; `beyond_int` for a number that does not fit the ints `params_t::n` and `capacity`, where it
-- is not followed further; `no_return` where it has neither a value nor a next step.
pub data Ended : Type 0 where
  returned_error : (lines : List Text) → Ended
  returned_zero : Ran → Ended
  joining : Ended
  beyond_int : Ended
  no_return : Ended

-- A queue that is run, and `main` after its threads have been joined; or only what comes after.
abbrev pub then_queue : (runs : Bool) → Part → (Option Part → Ended) → Ended
then_queue true p rest = if p.joined then rest (some p) else joining
then_queue false p rest = rest none

abbrev pub part_lines : Option Part → List Text
part_lines none = []
part_lines (some p) = p.lines

abbrev pub part_taken : Option Part → Option (List ℕ)
part_taken none = none
part_taken (some p) = some p.taken

abbrev pub header : Library → Settings → List Text
header l s =
    codes "Starting execution using:"
    ∷ (codes "number of items to queue: " ++ l.decimal s.n)
    ∷ (codes "queue size:               " ++ l.decimal s.m)
    ∷ []

abbrev pub returned : Library → Settings → (locking lockfree : Option Part) → Ended
returned l s a b = returned_zero (record {
  lines = header l s ++ (part_lines a ++ part_lines b);
  locking_taken = part_taken a;
  lockfree_taken = part_taken b;
})

abbrev pub lockfree_part : Library → Surroundings → Settings → Part
lockfree_part l w s =
    let q = Queues.run s.n (Queues.start (w.memory s.m) s.m) w.lockfree_turns in
    record {
      lines = queue_lines l (codes "Using Lock-free Queue: ") w.lockfree_first s.n;
      taken = q.received;
      joined = ended s.n q.sent q.received;
    }

module _ (x : Mutex) where
  abbrev pub locking_part : Library → Surroundings → Settings → Part
  locking_part l w s =
      let q = Locked.run x s.n (Locked.start x (w.memory s.m) s.m) w.locking_turns in
      record {
        lines = queue_lines l (codes "Using Locking Queue: ") w.locking_first s.n;
        taken = q.received;
        joined = ended s.n q.sent q.received;
      }

  -- From the settings on; pthread_create makes its threads.
  unfoldable pub execute : Library → Surroundings → Settings → Ended
  execute l w s =
      if ltb s.n (2 ^ 31) && ltb s.m (2 ^ 31)
      then then_queue (runs_locking s.type) (locking_part l w s)
          (λ a. then_queue (runs_lockfree s.type) (lockfree_part l w s) (λ b. returned l s a b))
      else beyond_int

  abbrev pub finish : Library → Surroundings → Text → Chosen → Ended
  finish l w program (chosen s) = execute l w s
  finish l w program bad_usage = returned_error (usage program)
  finish l w program c = no_return

  unfoldable pub main : Library → Surroundings → Text → List Text → Ended
  main l w program args = finish l w program (options l args defaults)
