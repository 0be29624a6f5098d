-- ===== src/Locks/Flag.antt =====
-- Locks that keep one flag, set while some thread is past `lock`: what makes such a lock exclude.
use utd_cs6v81_spring.Base.{
  ℕ, ◌+◌, ◌<◌, ◌≡◌, refl, Bool, true, false, Option, none, some, List, [], ◌∷◌, arith, ap, ◌≤◌,
}
use utd_cs6v81_spring.Base.{ℕ_discrete}
use utd_cs6v81_spring.Base.Family.{tally, tally-update, add-le-tally, le-tally, tally_const}
use utd_cs6v81_spring.Locks.Algorithm.{
  Algorithm, Phase, outside, locking, inside, unlocking, is_inside, Below, Threads, move, step, run,
  fresh, Excludes,
}

module _ {L U : Type 0} where
  -- One for a thread between the access that sets the flag and the one that clears it.
  abbrev pub holds : Phase L U → ℕ
  holds outside = 0
  holds (locking _) = 0
  holds inside = 1
  holds (unlocking _) = 1

abbrev pub bit : Bool → ℕ
bit true = 1
bit false = 0

holds_inside : {L U : Type 0} (p : Phase L U) → is_inside p ≡ true → holds p ≡ 1
holds_inside p h = ground arith

bit-le : (b : Bool) → bit b ≤ 1
bit-le b = ground arith

clear_bit : (b : Bool) → bit b ≡ 0 → b ≡ false
clear_bit b h = ground arith

-- What one access of `lock` and of `unlock` may do to the flag.
abbrev pub LockFlag {ℓ} : {L : Type ℓ} → Bool → Bool → Option L → Type 0
LockFlag before after none = (before ≡ false) × (after ≡ true)
LockFlag before after (some _) = after ≡ before

abbrev pub UnlockFlag {ℓ} : {U : Type ℓ} → Bool → Bool → Option U → Type 0
UnlockFlag before after none = after ≡ false
UnlockFlag before after (some _) = after ≡ before

module _ (a : Algorithm) where
  open a use {Shared, Locking, Unlocking, init, enter, leave, lock_step, unlock_step}

  pub record IsFlagged (flag : Shared → Bool) : Type 0 where
    pub locks :
        (m : Shared) (l : Locking) → LockFlag (flag m) (flag (lock_step m l).0) (lock_step m l).1
    pub unlocks :
        (m : Shared) (u : Unlocking)
        → UnlockFlag (flag m) (flag (unlock_step m u).0) (unlock_step m u).1

  module _ (flag : Shared → Bool) (f : IsFlagged flag) where
    -- One step exchanges what a thread holds for the flag.
    move-holds :
        (m : Shared) (p : Phase Locking Unlocking)
        → holds p ≤ bit (flag m)
        → bit (flag (move a m p).0) + holds p ≡ bit (flag m) + holds (move a m p).1
    unfolding move
    move-holds m outside h = refl
    move-holds m (locking l) h = ground (arith, f.locks m l)
    move-holds m inside h = refl
    move-holds m (unlocking u) h = ground (arith, f.unlocks m u)

    abbrev pub Counted : ℕ → Threads a → Type 0
    Counted n s = tally holds n s.phase ≡ bit (flag s.shared)

    step-Counted : (n : ℕ) (s : Threads a) (i : ℕ) → i < n → Counted n s → Counted n (step a s i)
    unfolding step
    step-Counted n s i h c = omega (
      arith,
      move-holds s.shared (s.phase i) (omega (arith, le-tally holds n s.phase i h)),
      tally-update holds n s.phase i (move a s.shared (s.phase i)).1 h,
      le-tally holds n s.phase i h,
    )

    pub run-Counted :
        (n : ℕ) (s : Threads a) (is : List ℕ) → Below n is → Counted n s → Counted n (run a s is)
    unfolding run
    run-Counted n s [] b c = c
    run-Counted n s (i ∷ is) b c = run-Counted n (step a s i) is b.1 (step-Counted n s i b.0 c)

    start : (n : ℕ) → flag init ≡ false → Counted n (fresh a)
    start n clear = omega (arith, tally_const holds 0 n (λ _. outside) (λ i _. refl), ap bit clear)

    pub reached :
        (n : ℕ) (is : List ℕ) → flag init ≡ false → Below n is → Counted n (run a (fresh a) is)
    reached n is clear b = run-Counted n (fresh a) is b (start n clear)

    -- So of `n` threads at most one holds the lock.
    pub Counted_exclusive :
        (n : ℕ) (is : List ℕ) (i j : ℕ)
        → flag init ≡ false
        → Below n is
        → i < n
        → j < n
        → is_inside ((run a (fresh a) is).phase i) ≡ true
        → is_inside ((run a (fresh a) is).phase j) ≡ true
        → i ≡ j
    Counted_exclusive n is i j clear b hi hj in_i in_j =
        let s = run a (fresh a) is in
        let c = reached n is clear b in
        elim (ℕ_discrete i j) [
          | yes e ↦ e
          | no ne ↦ absurd (
              omega (
                arith,
                add-le-tally holds n s.phase i j hi hj ne,
                holds_inside _ in_i,
                holds_inside _ in_j,
                bit-le (flag s.shared),
              ))
        ]

    pub Counted-Excludes : (n : ℕ) → flag init ≡ false → Excludes a n
    Counted-Excludes n clear = record {
      exclusive = λ is i j b _. Counted_exclusive n is i j clear b;
    }

    -- While no thread holds the lock, the flag is clear.
    pub quiet_clear :
        (n : ℕ) (is : List ℕ)
        → flag init ≡ false
        → Below n is
        → ((j : ℕ) → j < n → holds ((run a (fresh a) is).phase j) ≡ 0)
        → flag (run a (fresh a) is).shared ≡ false
    quiet_clear n is clear b quiet =
        let s = run a (fresh a) is in
        clear_bit (flag s.shared)
          (omega (arith, reached n is clear b, tally_const holds 0 n s.phase quiet))
