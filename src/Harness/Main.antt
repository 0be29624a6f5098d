-- ===== src/Harness/Main.antt =====
-- What `main` of project3/testone.cpp and of testtwo.cpp share: how they end, and the loop of
-- testCommon that joins the threads.
use utd_cs6v81_spring.Base.{ℕ, zero, suc, ◌<◌, ◌≡◌, ◌≢◌, refl, Bool, true, ◌&&◌, List, Text, arith}
use utd_cs6v81_spring.Harness.Args.{
  Options, Parsed, parsed, exited, uncaught, StackType, lock, lockfree, elimination,
}

-- How a stream prints numbers: `%lu`, and `%d` for the 32 bits of an int.
pub record Printf : Type 0 where
  pub lu : ℕ → Text
  pub d : ℕ → Text

-- The end of `main`: its own lines when it returns 0, an exit or an exception of parseArgs, a call
-- through the null pointer, or none while it waits for a thread. A run with an EliminationStack is
-- not followed past its options.
pub data Ended : Type 0 where
  returned_zero : (lines : List Text) → Ended
  left : (status : ℕ) (lines : List Text) → Ended
  thrown : Ended
  undefined : Ended
  joining : Ended
  not_followed : Ended

abbrev pub after_args : Parsed → (Options → Ended) → Ended
after_args (parsed o) rest = rest o
after_args (exited status lines) rest = left status lines
after_args uncaught rest = thrown

-- A run with a stack whose calls take effect at once.
abbrev pub follow : StackType → Ended → Ended
follow lock e = e
follow lockfree e = e
follow elimination e = not_followed

pub follow-of_ne : (t : StackType) (e : Ended) → t ≢ elimination → follow t e ≡ e
follow-of_ne lock e h = refl
follow-of_ne lockfree e h = refl
follow-of_ne elimination e h = absurd (h refl)

module _ {W : Type 0} (ended : W → Bool) where
  -- Whether each of the first `k` threads has ended.
  unfoldable pub joined : ℕ → (ℕ → W) → Bool
  joined zero worker = true
  joined (suc k) worker = joined k worker && ended (worker k)

  pub joined-all :
      (k : ℕ) (worker : ℕ → W)
      → ((i : ℕ) → i < k → ended (worker i) ≡ true)
      → joined k worker ≡ true
  unfolding joined
  joined-all zero worker all = refl
  joined-all (suc k) worker all =
      rw (joined-all k worker (λ i b. all i (omega arith)), all k (omega arith)) refl
