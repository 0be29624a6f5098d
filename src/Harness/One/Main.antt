-- ===== src/Harness/One/Main.antt =====
-- project3/testone.cpp, main: the arguments, the threads, and what is printed.
use utd_cs6v81_spring.Base.{
  ℕ, ◌+◌, ◌≡◌, ap, sym, ◌∙◌, Bool, true, false, ◌&&◌, Option, none, some, List, [], ◌∷◌, ◌++◌, map,
  ◌||◌, Text, codes, ltb, if◌then◌else◌,
}
use mathlib.Core.Path.{fun_ext}
use utd_cs6v81_spring.Times.{Timespec}
use utd_cs6v81_spring.Harness.Rounds.{Input}
use utd_cs6v81_spring.Harness.Args.{Options, Boost, default_options, parse_args}
use utd_cs6v81_spring.Harness.Launch.{test_common}
use utd_cs6v81_spring.Harness.Debug.{Defined, debug1, debug3, shown}
use utd_cs6v81_spring.Harness.Coins.{RealRandom, globals, seed_gen, with_coins, with_coins-seed_gen}
use utd_cs6v81_spring.Harness.Main.{
  Printf, Ended, returned_zero, undefined, joining, after_args, follow, joined,
}
use utd_cs6v81_spring.Harness.One.{
  Place, looping, finished, Worker, Shared, rounds, State, step, run, Printed, finish,
}
use utd_cs6v81_spring.Harness.One

abbrev pub is_looping : Place → Bool
is_looping looping = true
is_looping p = false

abbrev pub is_finished : Place → Bool
is_finished finished = true
is_finished p = false

abbrev pub has_ended : Worker → Bool
has_ended w = is_finished w.place

-- Whether the next step of a thread draws from `zeroone`.
abbrev pub draws : (starttime : Timespec) → State starttime → ℕ → Bool
draws starttime s tid = is_looping (s.worker tid).place && ltb (s.worker tid).counts.i rounds

-- The lines of `main` after the threads: those of a build for debugging, and the operations.
unfoldable pub report : Printf → Defined → Shared → Option Printed → Ended
report f d s none = undefined
report f d s (some p) = returned_zero (
    shown d debug3 (map f.d s.stack)
    ++ shown d debug1 (
        (f.lu s.totalpushcount
          ++ codes " pushed, "
          ++ f.lu s.totalpopcount
          ++ codes " popped, "
          ++ f.lu p.left_over
          ++ codes " leftover")
        ∷ [])
    ++ ((f.lu p.operations ++ codes " stack operations") ∷ []))

-- The lines that testone prints, for the numbers on the stack and those that it counts.
abbrev pub output : Printf → Defined → (stack : List ℕ) → (pushed popped left_over : ℕ) → List Text
output f d stack pushed popped left_over =
    (if d.proj_debug3 then map f.d stack else [])
    ++ (if d.proj_debug1 || d.proj_debug2 || d.proj_debug3
        then (f.lu pushed
            ++ codes " pushed, "
            ++ f.lu popped
            ++ codes " popped, "
            ++ f.lu left_over
            ++ codes " leftover")
          ∷ []
        else [])
    ++ ((f.lu (pushed + popped) ++ codes " stack operations") ∷ [])

module _ (r : RealRandom) (now start : Timespec) (o : Options) where
  -- The time that the workers wait for, from the two readings of the clock in testCommon.
  abbrev pub begins : Timespec
  begins = (test_common o now start).after.starttime

  -- The workers' turns, with what they draw; `time` is what `time(0)` returns.
  unfoldable pub dealt : ℕ → List (ℕ × Timespec) → List (ℕ × Input)
  dealt time =
      with_coins r (State begins) (step begins) (draws begins) (seed_gen r time (globals r))
        (One.start begins)

  unfoldable pub ran : List (ℕ × Input) → State begins
  ran turns = run begins (One.start begins) turns

module _ (r : RealRandom) (b : Boost) (f : Printf) (d : Defined) where
  -- From the options on: the threads, which are joined, and the end.
  unfoldable pub work : (now start : Timespec) → (Options → List (ℕ × Input)) → Options → Ended
  work now start turns o =
      let s = ran r now start o (turns o) in
      follow o.stacktype (
        if joined has_ended o.numthreads s.worker
        then report f d s.shared (finish s.shared)
        else joining)

  -- `unset` stands for the times of the options before they are set.
  unfoldable pub main :
      (time : ℕ) (unset now start : Timespec) → List (ℕ × Timespec) → List Text → Ended
  main time unset now start turns args =
      after_args (parse_args b args (default_options unset unset))
        (work now start (λ o. dealt r now start o time turns))

  -- testone with a LockStack or a LockFreeStack: whatever the time with which `main` seeds `gen`,
  -- it ends in the same way, with the same lines, as long as the clock and the order of the
  -- threads' steps are the same: the seed is not used.
  pub testone_seed :
      (time time' : ℕ) (unset now start : Timespec) (turns : List (ℕ × Timespec)) (args : List Text)
      → main time unset now start turns args ≡ main time' unset now start turns args
  unfolding main dealt
  testone_seed time time' unset now start turns args =
      let same : (λ o. dealt r now start o time turns) ≡ (λ o. dealt r now start o time' turns) =
        fun_ext (λ o.
          let begin = begins r now start o in
          let unseeded = with_coins-seed_gen r (State begin) (step begin) (draws begin) in
          unseeded time (globals r) (One.start begin) turns
          ∙ sym (unseeded time' (globals r) (One.start begin) turns)) in
      ap
        (λ inputs.
          after_args (parse_args b args (default_options unset unset)) (work now start inputs))
        same
