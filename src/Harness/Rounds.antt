-- ===== src/Harness/Rounds.antt =====
-- What a round of a worker does in project3/testone.cpp and testtwo.cpp with a LockStack or a
-- LockFreeStack. The stack is the list of the numbers in its nodes, and each of its calls takes
-- effect at once. The pop of an EliminationStack, which may wait for a push instead of returning
-- NULL, does not.
use utd_cs6v81_spring.Times.{Timespec}
use utd_cs6v81_spring.Base.{
  ℕ, ◌+◌, ◌*◌, ◌%◌, ◌^◌, ◌≤◌, ◌≡◌, refl, Bool, true, false, List, [], ◌∷◌, length, arith,
  if◌then◌else◌,
}

-- What the clock and the generator give at a step; `heads` is the test `zeroone() < 0.5`.
pub record Input : Type 0 where
  pub now : Timespec
  pub heads : Bool

-- The loop variable, an int, and the counts, which are uint64_t.
pub record Counts : Type 0 where
  pub i : ℕ
  pub pushcount : ℕ
  pub popcount : ℕ

abbrev pub no_counts : Counts
no_counts = record { i = 0; pushcount = 0; popcount = 0 }

-- A pop that returns NULL does not count as a round.
unfoldable pub round : (tid : ℕ) (heads : Bool) → List ℕ → Counts → List ℕ × Counts
round tid true stack c =
    (((tid * 10000 + c.i) % 2 ^ 32) ∷ stack, record c { i = c.i + 1; pushcount = c.pushcount + 1 })
round tid false [] c = ([], c)
round tid false (x ∷ stack) c = (stack, record c { i = c.i + 1; popcount = c.popcount + 1 })

-- The loop at the end of `main` that empties the stack, and its count.
unfoldable pub leftover : List ℕ → ℕ → ℕ
leftover [] mypopcount = mypopcount
leftover (x ∷ stack) mypopcount = leftover stack ((mypopcount + 1) % 2 ^ 64)

-- A round keeps the size of the stack in step with the counts.
pub round-balance :
    (tid : ℕ) (heads : Bool) (stack : List ℕ) (c : Counts)
    → let (stack', c') = round tid heads stack c in
      length stack' + c'.popcount + c.pushcount ≡ length stack + c.popcount + c'.pushcount
unfolding round
round-balance tid true stack c = omega arith
round-balance tid false [] c = omega arith
round-balance tid false (x ∷ stack) c = omega arith

pub round-pushcount :
    (tid : ℕ) (heads : Bool) (stack : List ℕ) (c : Counts)
    → (round tid heads stack c).1.pushcount ≡ (if heads then c.pushcount + 1 else c.pushcount)
unfolding round
round-pushcount tid true stack c = refl
round-pushcount tid false [] c = refl
round-pushcount tid false (x ∷ stack) c = refl

-- It counts at most one, and the loop variable counts pushes and pops.
pub round-rounds :
    (tid : ℕ) (heads : Bool) (stack : List ℕ) (c : Counts)
    → let c' = (round tid heads stack c).1 in
      (c'.i ≤ c.i + 1) × (c'.pushcount + c'.popcount + c.i ≡ c.pushcount + c.popcount + c'.i)
unfolding round
round-rounds tid true stack c = (omega arith, omega arith)
round-rounds tid false [] c = (omega arith, omega arith)
round-rounds tid false (x ∷ stack) c = (omega arith, omega arith)

pub leftover-length :
    (stack : List ℕ) (c : ℕ) → leftover stack (c % 2 ^ 64) ≡ (c + length stack) % 2 ^ 64
unfolding leftover
leftover-length [] c = omega arith
leftover-length (x ∷ stack) c =
    let one : (c % 2 ^ 64 + 1) % 2 ^ 64 ≡ (c + 1) % 2 ^ 64 = omega arith in
    rw one (omega (arith, leftover-length stack (c + 1)))
