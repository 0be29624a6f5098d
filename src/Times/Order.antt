-- ===== src/Times/Order.antt =====
-- The tests and the difference against nanoseconds since the epoch.
use utd_cs6v81_spring.Base.{ℕ, ◌+◌, ◌-◌, ◌*◌, ◌^◌, ◌≤◌, ◌<◌, ◌≡◌, ◌↔◌, true, arith}
use utd_cs6v81_spring.Times.{Timespec, nsec_sec, ts_lt, ts_sub, less, greater}

abbrev pub nanoseconds : Timespec → ℕ
nanoseconds t = t.tv_sec * nsec_sec + t.tv_nsec

-- The operator < of project3 is `ts_lt` of project2.
less-ts_lt : (a b : Timespec) → less a b ≡ ts_lt a b
unfolding less ts_lt
less-ts_lt a b = ground arith

-- `ts_lt` of project2 and the operator < of project3 are the same test, and for times whose
-- nanoseconds are less than a second it is the order of the points in time.
ts_lt_iff :
    (a b : Timespec)
    → a.tv_nsec < nsec_sec
    → b.tv_nsec < nsec_sec
    → ((ts_lt a b ≡ true) ↔ (nanoseconds a < nanoseconds b)) × (less a b ≡ ts_lt a b)
unfolding ts_lt
ts_lt_iff a b ha hb = (ground arith, less-ts_lt a b)

-- `ts_sub`, for times whose nanoseconds are less than a second and whose seconds are less than 2 ^
-- 33, so that nothing overflows an int64_t: it is the difference in nanoseconds, and 0 where the
-- first time is the earlier one.
pub ts_sub_lem :
    (x y : Timespec)
    → x.tv_nsec < nsec_sec
    → y.tv_nsec < nsec_sec
    → x.tv_sec < 2 ^ 33
    → y.tv_sec < 2 ^ 33
    → ts_sub x y ≡ nanoseconds x - nanoseconds y
unfolding ts_sub
ts_sub_lem x y hx hy sx sy = ground arith

-- The operator > of project3, on times whose nanoseconds are less than a second, holds exactly when
-- the first is not the earlier one, so it holds of equal times.
pub greater_iff :
    (a b : Timespec)
    → a.tv_nsec < nsec_sec
    → b.tv_nsec < nsec_sec
    → (greater a b ≡ true) ↔ (nanoseconds b ≤ nanoseconds a)
unfolding greater
greater_iff a b ha hb = ground arith
