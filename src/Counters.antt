-- ===== src/Counters.antt =====
-- project1: the programs part1, part2 and part2a, whose threads count in one variable.
pub mod Racy
pub mod Atomic
pub mod Locked
mod Tests
use utd_cs6v81_spring.Base.{
  ℕ, zero, suc, ◌+◌, ◌≡◌, refl, ap, ◌∙◌, arith, Bool, true, false, Option, none, some, List, [],
  ◌∷◌, Text, codes, if◌then◌else◌, ◌<◌,
}
use utd_cs6v81_spring.Harness.Main.{joined, joined-all}

-- How `main` goes on from its arguments, without the program's name: it returns -1 after the usage
-- text, or an exception of lexical_cast that nothing catches, or it makes threads; `failed` is the
-- return of -1 when the creation of a thread fails, and the threads made before run on.
pub data Launched : Type 0 where
  bad_usage : (lines : List Text) → Launched
  uncaught : Launched
  failed : (threads : ℕ) → Launched
  running : (threads : ℕ) → Launched

-- The loop that makes the `k` threads that are left, the next of them `i`; `creates i` says whether
-- pthread_create makes it.
unfoldable pub create_threads : (ℕ → Bool) → (k i : ℕ) → Launched
create_threads creates zero i = running i
create_threads creates (suc k) i =
    let rest = create_threads creates k (i + 1) in if creates i then rest else failed i

abbrev pub from_number : (ℕ → Bool) → Option ℕ → Launched
from_number creates none = uncaught
from_number creates (some num_threads) = create_threads creates num_threads 0

unfoldable pub launch : (usage : Text) (cast : Text → Option ℕ) → (ℕ → Bool) → List Text → Launched
unfolding create_threads
launch usage cast creates (arg ∷ []) = from_number creates (cast arg)
launch usage cast creates args = bad_usage (usage ∷ [])

-- What `main` prints once it has joined its threads; `none` while it waits for one of them, and
-- where it has left before.
abbrev pub printed : {W : Type 0} → (W → Bool) → (ℕ → W) → (counter : ℕ) → Launched → Option ℕ
printed ended worker counter (running threads) =
    if joined ended threads worker then some counter else none
printed ended worker counter l = none

-- The bound of the loops of the workers.
abbrev pub rounds : ℕ
rounds = 10000

-- Once the threads have all ended, the counter is printed.
pub printed-joined :
    {W : Type 0} (ended : W → Bool) (worker : ℕ → W) (counter n : ℕ)
    → ((t : ℕ) → t < n → ended (worker t) ≡ true)
    → printed ended worker counter (running n) ≡ some counter
printed-joined ended worker counter n all = rw (joined-all ended n worker all) refl

create_threads-running :
    (creates : ℕ → Bool) (k i : ℕ)
    → ((j : ℕ) → creates j ≡ true)
    → create_threads creates k i ≡ running (i + k)
unfolding create_threads
create_threads-running creates zero i all = ap running (omega arith)
create_threads-running creates (suc k) i all =
    rw (all i) (create_threads-running creates k (i + 1) all ∙ ap running (omega arith))

-- With a number that lexical_cast reads, and a pthread_create that never fails, that many threads
-- run.
pub launch-running :
    (usage arg : Text) (cast : Text → Option ℕ) (creates : ℕ → Bool) (n : ℕ)
    → cast arg ≡ some n
    → ((j : ℕ) → creates j ≡ true)
    → launch usage cast creates (arg ∷ []) ≡ running n
unfolding launch
launch-running usage arg cast creates n e all =
    ap (from_number creates) e ∙ create_threads-running creates n 0 all ∙ ap running (omega arith)
