-- ===== src/Harness/Coins.antt =====
-- The generator of project3/testone.cpp and testtwo.cpp, `zeroone`, which all workers draw from,
-- and its seeding. The types are those of Random.h: a variate_generator that holds its engine
-- itself.
use utd_cs6v81_spring.Base.{
  ℕ, ◌≡◌, refl, ap, Bool, List, [], ◌∷◌, Bool-cases, inl, inr, if◌then◌else◌,
}
use utd_cs6v81_spring.Base.Family.{Within}
use utd_cs6v81_spring.Times.{Timespec}
use utd_cs6v81_spring.Harness.Rounds.{Input}

-- What the code takes from boost: mt19937, with the state that it has from its constructor and the
-- one that a seed gives, and a draw of a real number between two bounds; `below_half` is the test
-- of such a number against 0.5.
pub record RealRandom : Type 1 where
  pub Gen : Type 0
  pub Real : Type 0
  pub fresh : Gen
  pub seeded : ℕ → Gen
  pub draw : ℕ → ℕ → Gen → Real × Gen
  pub below_half : Real → Bool

module _ (r : RealRandom) where
  open r use {Gen, fresh, seeded, draw, below_half}

  -- real_distribution_type, by its bounds.
  pub record Distribution : Type 0 where
    pub low : ℕ
    pub high : ℕ

  -- real_variate_generator: a copy of an engine, and a distribution.
  pub record Variate : Type 0 where
    pub engine : Gen
    pub distribution : Distribution

  pub record Globals : Type 0 where
    pub gen : Gen
    pub dist : Distribution
    pub zeroone : Variate

  unfoldable pub globals : Globals
  globals =
      let gen = fresh in
      let dist : Distribution = record { low = 0; high = 1 } in
      record { gen = gen; dist = dist; zeroone = record { engine = gen; distribution = dist } }

  -- `gen.seed(time(0))`
  unfoldable pub seed_gen : ℕ → Globals → Globals
  seed_gen time g = record g { gen = seeded time }

  -- `zeroone() < 0.5`
  unfoldable pub toss : Globals → Bool × Globals
  toss g =
      let v = g.zeroone in
      let (x, engine) = draw v.distribution.low v.distribution.high v.engine in
      (below_half x, record g { zeroone = record v { engine = engine } })

  -- The workers of a program, for which `draws` says whether a thread's next step draws.
  module _ (State : Type 0) (step : State → ℕ → Input → State) (draws : State → ℕ → Bool) where
    -- The turns of the threads with what they draw.
    unfoldable pub with_coins : Globals → State → List (ℕ × Timespec) → List (ℕ × Input)
    unfolding toss
    with_coins g s [] = []
    with_coins g s ((tid, now) ∷ turns) =
        let (heads, g') = toss g in
        let x : Input = record { now = now; heads = heads } in
        (tid, x) ∷ with_coins (if draws s tid then g' else g) (step s tid x) turns

    pub with_coins-Within :
        (n : ℕ) (g : Globals) (s : State) (turns : List (ℕ × Timespec))
        → Within n turns
        → Within n (with_coins g s turns)
    unfolding with_coins
    with_coins-Within n g s [] b = tt
    with_coins-Within n g s ((tid, now) ∷ turns) b =
        (b.0, with_coins-Within n (if draws s tid then (toss g).1 else g) _ turns b.1)

    -- The engine that a seed sets is not the one that `zeroone` draws from.
    pub with_coins-seed_gen :
        (time : ℕ) (g : Globals) (s : State) (turns : List (ℕ × Timespec))
        → with_coins (seed_gen time g) s turns ≡ with_coins g s turns
    unfolding with_coins seed_gen
    with_coins-seed_gen time g s [] = refl
    with_coins-seed_gen time g s ((tid, now) ∷ turns) =
        let x : Input = record { now = now; heads = (toss g).0 } in
        elim (Bool-cases (draws s tid)) [
          | inl drawn ↦ rw drawn (
              ap (λ rest. (tid, x) ∷ rest)
                (with_coins-seed_gen time (toss g).1 (step s tid x) turns))
          | inr kept ↦
              rw kept
                (ap (λ rest. (tid, x) ∷ rest) (with_coins-seed_gen time g (step s tid x) turns))
        ]
