-- ===== src/Queues/Main/Runs.antt =====
-- project1/part3.cpp, main, from its command line to its end.
use mathlib.Core.List.{append-nil}
use utd_cs6v81_spring.Base.{
  ℕ, ◌^◌, ◌≤◌, ◌<◌, ◌≡◌, ◌≢◌, refl, ap, ◌∙◌, Bool, true, false, ◌&&◌, ltb, Option, none, some, List,
  [], ◌∷◌, ◌++◌, map, length, Text, codes, arith,
}
use utd_cs6v81_spring.Locks.Spin.{Mutex}
use utd_cs6v81_spring.Queues
use utd_cs6v81_spring.Queues.Locked
use utd_cs6v81_spring.Queues.Order.{up_to}
use utd_cs6v81_spring.Queues.Locked.Order.{Signalled}
use utd_cs6v81_spring.Queues.Main.{
  QueueType, both, locking, lockfree, Settings, defaults, Library, Surroundings, Part, Ran, Ended,
  returned_zero, returned, then_queue, ended, queue_lines, locking_part, lockfree_part, execute,
  finish, main,
}
use utd_cs6v81_spring.Queues.Main.Options.{lower_case, IsLibrary, type_name, options-named}
use utd_cs6v81_spring.Queues.Main.Ends.{lockfree_taken, locking_taken}

-- The lines of `main` before the queues.
abbrev pub started : Library → (n m : ℕ) → List Text
started l n m =
    codes "Starting execution using:"
    ∷ (codes "number of items to queue: " ++ l.decimal n)
    ∷ (codes "queue size:               " ++ l.decimal m)
    ∷ []

-- The lines for a queue, those of its two threads in either order.
abbrev pub queue_ran : Library → Text → (producer_first : Bool) → ℕ → List Text
queue_ran l title true n =
    title
    ∷ codes "   Creating producer and consumer..."
    ∷ (codes "   Producer: enqueued " ++ l.decimal n ++ codes " items")
    ∷ (codes "   Consumer: dequeued " ++ l.decimal n ++ codes " items")
    ∷ codes "   Producer and Consumer stopped."
    ∷ []
queue_ran l title false n =
    title
    ∷ codes "   Creating producer and consumer..."
    ∷ (codes "   Consumer: dequeued " ++ l.decimal n ++ codes " items")
    ∷ (codes "   Producer: enqueued " ++ l.decimal n ++ codes " items")
    ∷ codes "   Producer and Consumer stopped."
    ∷ []

-- What part3 prints for a type, and what the consumers get: in each queue of the type, 0, 1, …, n -
-- 1.
abbrev pub expected : Library → Surroundings → (n m : ℕ) → QueueType → Ran
expected l w n m both = record {
  lines =
      started l n m
      ++ (queue_ran l (codes "Using Locking Queue: ") w.locking_first n
          ++ queue_ran l (codes "Using Lock-free Queue: ") w.lockfree_first n);
  locking_taken = some (up_to n);
  lockfree_taken = some (up_to n);
}
expected l w n m locking = record {
  lines = started l n m ++ queue_ran l (codes "Using Locking Queue: ") w.locking_first n;
  locking_taken = some (up_to n);
  lockfree_taken = none;
}
expected l w n m lockfree = record {
  lines = started l n m ++ queue_ran l (codes "Using Lock-free Queue: ") w.lockfree_first n;
  locking_taken = none;
  lockfree_taken = some (up_to n);
}

queue_lines_ran :
    (l : Library) (title : Text) (first : Bool) (n : ℕ)
    → queue_lines l title first n ≡ queue_ran l title first n
queue_lines_ran l title true n = refl
queue_lines_ran l title false n = refl

Part-eq :
    (p : Part) (lines : List Text) (taken : List ℕ)
    → p.lines ≡ lines
    → p.taken ≡ taken
    → p.joined ≡ true
    → p ≡ record { lines = lines; taken = taken; joined = true }
Part-eq p lines taken a b c = ground (arith, a, b, c)

-- A queue whose threads have been joined.
abbrev whole : List Text → List ℕ → Part
whole lines taken = record { lines = lines; taken = taken; joined = true }

after_both :
    (l : Library) (s : Settings) (p q : Part) (lines lines' : List Text) (taken taken' : List ℕ)
    → p ≡ whole lines taken
    → q ≡ whole lines' taken'
    → then_queue true p (λ a. then_queue true q (λ b. returned l s a b))
      ≡ returned l s (some (whole lines taken)) (some (whole lines' taken'))
after_both l s p q lines lines' taken taken' e e' = rw (e, e') refl

after_one :
    (p : Part) (k : Option Part → Ended) (lines : List Text) (taken : List ℕ)
    → p ≡ whole lines taken
    → then_queue true p k ≡ k (some (whole lines taken))
after_one p k lines taken e = rw e refl

ended_when :
    (n sent : ℕ) (received : List ℕ) → n ≤ sent → n ≤ length received → ended n sent received ≡ true
ended_when n sent received a b = ground arith

module _ (x : Mutex) (l : Library) (w : Surroundings) (n m : ℕ) (room : 0 < m)
    (long : length (w.memory m) ≡ m) where
  abbrev settings : QueueType → Settings
  settings t = record { n = n; m = m; type = t }

  lockfree_whole :
      (t : QueueType)
      → let q = Queues.run n (Queues.start (w.memory m) m) w.lockfree_turns in
        n ≤ q.sent
        → n ≤ length q.received
        → lockfree_part l w (settings t) ≡ record {
          lines = queue_ran l (codes "Using Lock-free Queue: ") w.lockfree_first n;
          taken = up_to n;
          joined = true;
        }
  lockfree_whole t sent got =
      let q = Queues.run n (Queues.start (w.memory m) m) w.lockfree_turns in
      Part-eq (lockfree_part l w (settings t)) _ _
        (queue_lines_ran l (codes "Using Lock-free Queue: ") w.lockfree_first n)
        (lockfree_taken (w.memory m) m n w.lockfree_turns room long got)
        (ended_when n q.sent q.received sent got)

  locking_whole :
      (t : QueueType)
      → Signalled w.locking_turns
      → let q = Locked.run x n (Locked.start x (w.memory m) m) w.locking_turns in
        n ≤ q.sent
        → n ≤ length q.received
        → locking_part x l w (settings t) ≡ record {
          lines = queue_ran l (codes "Using Locking Queue: ") w.locking_first n;
          taken = up_to n;
          joined = true;
        }
  locking_whole t quiet sent got =
      let q = Locked.run x n (Locked.start x (w.memory m) m) w.locking_turns in
      Part-eq (locking_part x l w (settings t)) _ _
        (queue_lines_ran l (codes "Using Locking Queue: ") w.locking_first n)
        (locking_taken x (w.memory m) m n w.locking_turns room long quiet got)
        (ended_when n q.sent q.received sent got)

  execute_runs :
      (t : QueueType)
      → n < 2 ^ 31
      → m < 2 ^ 31
      → Signalled w.locking_turns
      → (t ≢ lockfree
          → let q = Locked.run x n (Locked.start x (w.memory m) m) w.locking_turns in
            (n ≤ q.sent) × (n ≤ length q.received))
      → (t ≢ locking
          → let q = Queues.run n (Queues.start (w.memory m) m) w.lockfree_turns in
            (n ≤ q.sent) × (n ≤ length q.received))
      → execute x l w (settings t) ≡ returned_zero (expected l w n m t)
  unfolding execute
  execute_runs both hn hm quiet a b =
      let fits : (ltb n (2 ^ 31) && ltb m (2 ^ 31)) ≡ true = ground arith in
      let (sent, got) = a (λ e. cc) in
      let (sent', got') = b (λ e. cc) in
      rw fits (
        after_both l (settings both) (locking_part x l w (settings both))
          (lockfree_part l w (settings both)) _ _ _ _ (locking_whole both quiet sent got)
          (lockfree_whole both sent' got'))
  execute_runs locking hn hm quiet a b =
      let fits : (ltb n (2 ^ 31) && ltb m (2 ^ 31)) ≡ true = ground arith in
      let (sent, got) = a (λ e. cc) in
      rw fits (
        after_one (locking_part x l w (settings locking))
          (λ a. returned l (settings locking) a none) _ _ (locking_whole locking quiet sent got)
        ∙ rw append-nil refl)
  execute_runs lockfree hn hm quiet a b =
      let fits : (ltb n (2 ^ 31) && ltb m (2 ^ 31)) ≡ true = ground arith in
      let (sent, got) = b (λ e. cc) in
      rw fits (
        after_one (lockfree_part l w (settings lockfree))
          (λ b. returned l (settings lockfree) none b) _ _ (lockfree_whole lockfree sent got))

-- Two numbers that fit in an int, the queue size not 0, and a type, its name in letters of either
-- case, given as the options -n, -m and -t; `new` gives arrays of that size, no thread wakes
-- without a signal, and the steps taken bring the two threads of each queue of that type to their
-- ends: `main` returns 0 after the lines for the queues of that type, and the consumer of each of
-- them has got 0, 1, …, n - 1 in this order.
pub main_runs :
    (x : Mutex) (l : Library) (w : Surroundings) (program word : Text) (n m : ℕ) (t : QueueType)
    → IsLibrary l
    → n < 2 ^ 31
    → m < 2 ^ 31
    → 0 < m
    → length (w.memory m) ≡ m
    → map lower_case word ≡ type_name t
    → Signalled w.locking_turns
    → (t ≢ lockfree
        → let q = Locked.run x n (Locked.start x (w.memory m) m) w.locking_turns in
          (n ≤ q.sent) × (n ≤ length q.received))
    → (t ≢ locking
        → let q = Queues.run n (Queues.start (w.memory m) m) w.lockfree_turns in
          (n ≤ q.sent) × (n ≤ length q.received))
    → main x l w program
        (codes "-n" ∷ l.decimal n ∷ codes "-m" ∷ l.decimal m ∷ codes "-t" ∷ word ∷ [])
      ≡ returned_zero (expected l w n m t)
unfolding main
main_runs x l w program word n m t lawful hn hm room long e quiet a b =
    ap (finish x l w program)
      (options-named l lawful word n m t defaults (omega arith) (omega arith) e)
    ∙ execute_runs x l w n m room long t hn hm quiet a b
