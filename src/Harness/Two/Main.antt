-- ===== src/Harness/Two/Main.antt =====
-- project3/testtwo.cpp, main: the arguments, the threads, and what is printed.
use utd_cs6v81_spring.Base.{
  ℕ, ◌+◌, ◌-◌, ◌%◌, ◌^◌, ◌<◌, ◌≡◌, refl, ap, sym, ◌∙◌, Bool, true, false, Option, none, some, List,
  [], ◌∷◌, ◌++◌, map, length, ◌||◌, ◌≢◌, Text, codes, if◌then◌else◌,
}
use mathlib.Core.Path.{fun_ext}
use utd_cs6v81_spring.Base.Family.{Within, tally}
use utd_cs6v81_spring.Times.{Timespec}
use utd_cs6v81_spring.Harness.Rounds.{Input}
use utd_cs6v81_spring.Harness.Args.{
  StackType, elimination, Options, Boost, default_options, parse_args,
}
use utd_cs6v81_spring.Harness.Args.Laws.{IsBoost, asked, command_line, parse_args-command_line}
use utd_cs6v81_spring.Harness.Launch.{test_common}
use utd_cs6v81_spring.Harness.Debug.{Defined, debug1, debug3, shown, shown-debug1, shown-debug3}
use utd_cs6v81_spring.Harness.Coins.{
  RealRandom, globals, seed_gen, with_coins, with_coins-Within, with_coins-seed_gen,
}
use utd_cs6v81_spring.Harness.Main.{
  Printf, Ended, returned_zero, undefined, joining, after_args, follow, follow-of_ne, joined,
  joined-all,
}
use utd_cs6v81_spring.Harness.Two.{
  Place, looping, finished, Worker, Shared, State, step, run, Printed, finish,
}
use utd_cs6v81_spring.Harness.Two
use utd_cs6v81_spring.Harness.Two.Totals.{pushes, pops, testtwo_prints}

abbrev pub is_looping : Place → Bool
is_looping looping = true
is_looping p = false

abbrev pub is_finished : Place → Bool
is_finished finished = true
is_finished p = false

abbrev pub has_ended : Worker → Bool
has_ended w = is_finished w.place

-- Whether the next step of a thread draws from `zeroone`.
abbrev pub draws : (starttime stoptime : Timespec) → State starttime stoptime → ℕ → Bool
draws starttime stoptime s tid = is_looping (s.worker tid).place

-- The lines of `main` after the threads: those of a build for debugging, and the operations with the
-- allocations.
unfoldable pub report : Printf → Defined → Shared → Option Printed → Ended
report f d s none = undefined
report f d s (some p) = returned_zero (
    shown d debug3 (map f.d s.stack)
    ++ shown d debug1 (
        (f.lu s.totalpushcount
          ++ codes " pushed, "
          ++ f.lu s.totalpopcount
          ++ codes " popped, "
          ++ f.lu p.left_over
          ++ codes " leftover")
        ∷ [])
    ++ ((f.lu p.operations
          ++ codes " stack operations... "
          ++ f.lu p.allocations
          ++ codes " allocs")
        ∷ []))

-- The lines that testtwo prints, for the numbers on the stack and those that it counts.
abbrev pub output :
    Printf
    → Defined
    → (stack : List ℕ) → (pushed popped left_over operations allocs : ℕ) → List Text
output f d stack pushed popped left_over operations allocs =
    (if d.proj_debug3 then map f.d stack else [])
    ++ (if d.proj_debug1 || d.proj_debug2 || d.proj_debug3
        then (f.lu pushed
            ++ codes " pushed, "
            ++ f.lu popped
            ++ codes " popped, "
            ++ f.lu left_over
            ++ codes " leftover")
          ∷ []
        else [])
    ++ ((f.lu operations ++ codes " stack operations... " ++ f.lu allocs ++ codes " allocs") ∷ [])

report-output :
    (f : Printf) (d : Defined) (s : Shared) (a b c e k : ℕ)
    → s.totalpushcount ≡ a
    → s.totalpopcount ≡ b
    → report f d s (some (record { operations = c; allocations = e; left_over = k }))
      ≡ returned_zero (output f d s.stack a b k c e)
unfolding report
report-output f d s a b c e k ea eb = rw (shown-debug3, shown-debug1, ea, eb) refl

module _ (r : RealRandom) (now start : Timespec) (o : Options) where
  -- The times that the workers wait for, from the two readings of the clock in testCommon.
  abbrev pub begins : Timespec
  begins = (test_common o now start).after.starttime

  abbrev pub ends : Timespec
  ends = (test_common o now start).after.stoptime

  -- The workers' turns, with what they draw; `time` is what `time(0)` returns.
  unfoldable pub dealt : ℕ → List (ℕ × Timespec) → List (ℕ × Input)
  dealt time =
      with_coins r (State begins ends) (step begins ends) (draws begins ends)
        (seed_gen r time (globals r)) (Two.start begins ends)

  unfoldable pub ran : List (ℕ × Input) → State begins ends
  ran turns = run begins ends (Two.start begins ends) turns

module _ (r : RealRandom) (b : Boost) (f : Printf) (d : Defined) where
  -- From the options on: the threads, which are joined, and the end.
  unfoldable pub work : (now start : Timespec) → (Options → List (ℕ × Input)) → Options → Ended
  work now start turns o =
      let s = ran r now start o (turns o) in
      follow o.stacktype (
        if joined has_ended o.numthreads s.worker
        then report f d s.shared (finish s.shared)
        else joining)

  -- `unset` stands for the times of the options before they are set.
  unfoldable pub main :
      (time : ℕ) (unset now start : Timespec) → List (ℕ × Timespec) → List Text → Ended
  main time unset now start turns args =
      after_args (parse_args b args (default_options unset unset))
        (work now start (λ o. dealt r now start o time turns))

  -- testtwo with a LockStack or a LockFreeStack: whatever the time with which `main` seeds `gen`,
  -- it ends in the same way, with the same lines, as long as the clock and the order of the
  -- threads' steps are the same: the seed is not used.
  pub testtwo_seed :
      (time time' : ℕ) (unset now start : Timespec) (turns : List (ℕ × Timespec)) (args : List Text)
      → main time unset now start turns args ≡ main time' unset now start turns args
  unfolding main dealt
  testtwo_seed time time' unset now start turns args =
      let same : (λ o. dealt r now start o time turns) ≡ (λ o. dealt r now start o time' turns) =
        fun_ext (λ o.
          let begin = begins r now start o in
          let end = ends r now start o in
          let unseeded =
            with_coins-seed_gen r (State begin end) (step begin end) (draws begin end) in
          unseeded time (globals r) (Two.start begin end) turns
          ∙ sym (unseeded time' (globals r) (Two.start begin end) turns)) in
      ap
        (λ inputs.
          after_args (parse_args b args (default_options unset unset)) (work now start inputs))
        same

  -- testtwo without USE_GC, with a LockStack or a LockFreeStack, a number of threads that is not 0
  -- and a number of seconds, both of 32 bits, on its command line, and the workers interleaved in
  -- any way: once every worker has ended, `main` returns 0. Its last line gives the number of the
  -- pushes and of the pops that returned a node, modulo 2 ^ 64, and the number of the pushes for
  -- the allocations. The line for debugging gives the pushes, the pops, and as nodes left over by
  -- how much pushes exceed pops, which is how many nodes are on the stack; in a build with
  -- PROJ_DEBUG3 these are printed before.
  pub testtwo_main :
      (decimal : ℕ → Text) (t : StackType) (n seconds time : ℕ) (unset now start : Timespec)
      (turns : List (ℕ × Timespec))
      → IsBoost b decimal
      → t ≢ elimination
      → 0 < n
      → n < 2 ^ 32
      → seconds < 2 ^ 32
      → Within n turns
      → ((i : ℕ)
          → i < n
          → ((ran r now start
                (asked t n seconds unset)
                (dealt r now start (asked t n seconds unset) time turns)).worker
              i).place
            ≡ finished)
      → let o = asked t n seconds unset in
        let s = ran r now start o (dealt r now start o time turns) in
        let pushed = tally pushes n s.worker in
        let popped = tally pops n s.worker in
        (length s.shared.stack + popped ≡ pushed)
        × (main time unset now start turns (command_line decimal t n seconds)
            ≡ returned_zero (
                output f d s.shared.stack
                  (pushed % 2 ^ 64)
                  (popped % 2 ^ 64)
                  ((pushed - popped) % 2 ^ 64)
                  ((pushed + popped) % 2 ^ 64)
                  (pushed % 2 ^ 64)))
  unfolding main work ran dealt
  testtwo_main decimal t n seconds time unset now start turns lawful listed some_thread fits h b'
        done =
      let o = asked t n seconds unset in
      let begin = begins r now start o in
      let end = ends r now start o in
      let s = ran r now start o (dealt r now start o time turns) in
      let within =
        with_coins-Within r (State begin end) (step begin end) (draws begin end) n
          (seed_gen r time (globals r)) (Two.start begin end) turns b' in
      let (most, push, pop, shown) =
        testtwo_prints begin end n (dealt r now start o time turns) some_thread within done in
      let parse =
        parse_args-command_line b decimal t n seconds (default_options unset unset) lawful fits h in
      let all_joined = joined-all has_ended n s.worker (λ i q. ap is_finished (done i q)) in
      (
        most,
        rw (parse, all_joined, shown)
            (follow-of_ne t _ listed ∙ report-output f d s.shared _ _ _ _ _ push pop),
      )
