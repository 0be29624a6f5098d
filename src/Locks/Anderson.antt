-- ===== src/Locks/Anderson.antt =====
-- project2/ALock.cpp: Anderson's lock, a ring of flags and a ticket for each caller.
pub mod Ghost
pub mod Steps
pub mod Exclusion
mod Tests
use utd_cs6v81_spring.Base.{
  ℕ, zero, suc, ◌+◌, ◌%◌, ◌^◌, Bool, true, false, Option, none, some, List, get_or, set, replicate,
  if◌then◌else◌,
}
use utd_cs6v81_spring.Locks.Algorithm.{Algorithm}

pub record Shared : Type 0 where
  pub flag : List Bool
  pub tail : ℕ  -- uint64_t
  pub size : ℕ  -- uint64_t, from a uint32_t
  pub curslot : ℕ  -- uint32_t

-- `flag[i]`, at an index below `size`.
abbrev pub read_flag : Shared → ℕ → Bool
read_flag m i = get_or m.flag i false

-- The rounds of the constructor's loop from index `i` on.
pub clear_flags : List Bool → ℕ → ℕ → List Bool
clear_flags flag zero i = flag
clear_flags flag (suc rounds) i = clear_flags (set flag i false) rounds (i + 1)

-- The constructor; `memory` is what the allocated array held. With no slot at all, `flag[0] = true`
-- writes past the array; here it changes nothing.
pub new_alock : List Bool → ℕ → Shared
unfolding clear_flags
new_alock memory capacity = record {
  flag = set (clear_flags memory capacity 0) 0 true;
  tail = 0;
  size = capacity;
  curslot = 0;
}

-- `lock`: before the fetch and add, at the `while`, before `flag[slot] = false`, and before
-- `curslot = slot`. `unlock`: before `curslot` is read, and before the flag is written.
pub data LockPc : Type 0 where
  take : LockPc
  wait : (slot : ℕ) → LockPc
  clear : (slot : ℕ) → LockPc
  publish : (slot : ℕ) → LockPc

pub data UnlockPc : Type 0 where
  read : UnlockPc
  grant : (slot : ℕ) → UnlockPc

-- A slot is below `size`, a uint32_t, so it does not wrap.
pub alock_lock_step : Shared → LockPc → Shared × Option LockPc
alock_lock_step m take =
    let tmp = m.tail in (record m { tail = (tmp + 1) % 2 ^ 64 }, some (wait (tmp % m.size)))
alock_lock_step m (wait slot) = (m, some (if read_flag m slot then clear slot else wait slot))
alock_lock_step m (clear slot) = (record m { flag = set m.flag slot false }, some (publish slot))
alock_lock_step m (publish slot) = (record m { curslot = slot }, none)

-- `curslot + 1` is computed in 32 bits, and the remainder in 64.
pub alock_unlock_step : Shared → UnlockPc → Shared × Option UnlockPc
alock_unlock_step m read = (m, some (grant ((m.curslot + 1) % 2 ^ 32 % m.size)))
alock_unlock_step m (grant slot) = (record m { flag = set m.flag slot true }, none)

abbrev pub alock : List Bool → ℕ → Algorithm
alock memory capacity = record {
  Shared = Shared;
  Locking = LockPc;
  Unlocking = UnlockPc;
  init = new_alock memory capacity;
  enter = λ _. take;
  leave = read;
  lock_step = alock_lock_step;
  unlock_step = alock_unlock_step;
}
