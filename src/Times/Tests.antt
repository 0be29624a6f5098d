-- ===== src/Times/Tests.antt =====
-- Times around a full second.
use utd_cs6v81_spring.Base.{◌≤◌, ◌-◌, ◌≡◌, ◌↔◌, refl, true, arith}
use utd_cs6v81_spring.Times.{Timespec, ts_sub, greater}
use utd_cs6v81_spring.Times.Order.{nanoseconds, ts_sub_lem, greater_iff}

abbrev early : Timespec
early = record { tv_sec = 7; tv_nsec = 999_999_999 }

abbrev late : Timespec
late = record { tv_sec = 8; tv_nsec = 1 }

ts_sub_lem_example : ts_sub late early ≡ nanoseconds late - nanoseconds early
ts_sub_lem_example = ts_sub_lem late early (omega arith) (omega arith) (omega arith) (omega arith)

two_nanoseconds : ts_sub late early ≡ 2
unfolding ts_sub
two_nanoseconds = refl

greater_iff_example : (greater late late ≡ true) ↔ (nanoseconds late ≤ nanoseconds late)
greater_iff_example = greater_iff late late (omega arith) (omega arith)

not_after_itself : greater late late ≡ true
unfolding greater
not_after_itself = refl
