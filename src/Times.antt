-- ===== src/Times.antt =====
-- Points in time: `timespec` in project2/second_test.cpp (ts_lt, ts_sub) and project3/Common.h (the
-- operators < and >). Times of the real clock, so no field is negative.
pub mod Order
mod Tests
use utd_cs6v81_spring.Base.{
  ℕ, suc, ◌+◌, ◌-◌, ◌*◌, ◌%◌, ◌^◌, ◌<◌, Bool, true, false, not, ltb, leb, if◌then◌else◌,
}

pub record Timespec : Type 0 where
  pub tv_sec : ℕ
  pub tv_nsec : ℕ

abbrev pub nsec_sec : ℕ
nsec_sec = 1_000_000_000

-- `ts_lt`
unfoldable pub ts_lt : Timespec → Timespec → Bool
ts_lt a b =
    if ltb b.tv_sec a.tv_sec
    then false
    else if ltb a.tv_sec b.tv_sec
    then true
    else if ltb a.tv_nsec b.tv_nsec
    then true
    else false

-- The 64 bits of an int64_t; a difference of two of them, and whether they stand for a negative
-- number. An operation that overflows, which C++ leaves undefined, wraps around here.
abbrev pub minus : ℕ → ℕ → ℕ
minus a b = (a % 2 ^ 64 + 2 ^ 64 - b % 2 ^ 64) % 2 ^ 64

abbrev pub is_negative : ℕ → Bool
is_negative a = leb (2 ^ 63) a

-- `ts_sub`; 0 where the difference is negative.
unfoldable pub ts_sub : Timespec → Timespec → ℕ
ts_sub x y =
    let borrow = ltb x.tv_nsec y.tv_nsec in
    let retval =
      if borrow
      then (minus x.tv_nsec y.tv_nsec + nsec_sec) % 2 ^ 64
      else minus x.tv_nsec y.tv_nsec in
    let second = if borrow then minus (minus x.tv_sec y.tv_sec) 1 else minus x.tv_sec y.tv_sec in
    let total = (retval + second * nsec_sec) % 2 ^ 64 in if is_negative total then 0 else total

-- `operator<` of project3
unfoldable pub less : Timespec → Timespec → Bool
less left right =
    if ltb right.tv_sec left.tv_sec
    then false
    else if ltb left.tv_nsec right.tv_nsec
    then true
    else if ltb left.tv_sec right.tv_sec
    then true
    else false

-- `operator>` of project3
unfoldable pub greater : Timespec → Timespec → Bool
unfolding less
greater left right = not (less left right)
