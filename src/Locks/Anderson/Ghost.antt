-- ===== src/Locks/Anderson/Ghost.antt =====
-- What is true of Anderson's lock in every reachable state, told through the tickets: `taken` have
-- been given out, `served` have been returned, and thread `i` drew `ticket i` last.
use utd_cs6v81_spring.Base.{ℕ, ◌+◌, ◌%◌, ◌^◌, ◌≤◌, ◌<◌, ◌≡◌, true, false, length, arith}
use utd_cs6v81_spring.Base.Family.{tally}
use utd_cs6v81_spring.Locks.Algorithm.{Phase, outside, locking, inside, unlocking}
use utd_cs6v81_spring.Locks.Anderson.{
  Shared, read_flag, LockPc, take, wait, clear, publish, UnlockPc, read, grant,
}

abbrev pub AlockPhase : Type 0
AlockPhase = Phase LockPc UnlockPc

-- Between the fetch and add and the write that lets the next thread in.
abbrev pub ticketed : AlockPhase → ℕ
ticketed outside = 0
ticketed (locking take) = 0
ticketed _ = 1

abbrev pub taking : AlockPhase → ℕ
taking (locking take) = 1
taking _ = 0

-- Has seen its flag.
abbrev pub on_turn : AlockPhase → ℕ
on_turn outside = 0
on_turn (locking take) = 0
on_turn (locking (wait _)) = 0
on_turn _ = 1

-- Has cleared its flag.
abbrev pub past : AlockPhase → ℕ
past outside = 0
past (locking take) = 0
past (locking (wait _)) = 0
past (locking (clear _)) = 0
past _ = 1

-- The slots that a thread with ticket `t` keeps.
abbrev pub Slotted : ℕ → Shared → ℕ → AlockPhase → Type 0
Slotted size m t (locking (wait s)) = s ≡ t % size
Slotted size m t (locking (clear s)) = s ≡ t % size
Slotted size m t (locking (publish s)) = s ≡ t % size
Slotted size m t inside = m.curslot ≡ t % size
Slotted size m t (unlocking read) = m.curslot ≡ t % size
Slotted size m t (unlocking (grant s)) = s ≡ (t + 1) % size
Slotted size m t _ = Unit

pub record Inv (n size called taken served : ℕ) (ticket : ℕ → ℕ) (m : Shared) (pc : ℕ → AlockPhase)
    : Type 0 where
  pub few : n ≤ size
  pub small : size < 2 ^ 32
  pub sized : m.size ≡ size
  pub long : length m.flag ≡ size
  pub tail : m.tail ≡ taken
  pub bounded : taken + tally taking n pc ≤ called
  pub counted : taken ≡ served + tally ticketed n pc
  pub range : (i : ℕ) → ticketed (pc i) ≡ 1 → (served ≤ ticket i) × (ticket i < taken)
  pub unique : (i j : ℕ) → ticketed (pc i) ≡ 1 → ticketed (pc j) ≡ 1 → ticket i ≡ ticket j → i ≡ j
  pub turn : (i : ℕ) → on_turn (pc i) ≡ 1 → ticket i ≡ served
  pub slots : (i : ℕ) → Slotted size m (ticket i) (pc i)
  pub lit : (x : ℕ) → read_flag m x ≡ true → x ≡ served % size
  pub dark : (i x : ℕ) → past (pc i) ≡ 1 → read_flag m x ≡ false

-- Numbers less than `m` apart are told apart by their remainders.
pub mod_injective : (m a b : ℕ) → a ≤ b → b < a + m → a % m ≡ b % m → b ≡ a
mod_injective m a b h k e = grind arith
