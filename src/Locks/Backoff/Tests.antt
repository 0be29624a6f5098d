-- ===== src/Locks/Backoff/Tests.antt =====
-- The default bounds of the tests, and bounds that wrap.
use utd_cs6v81_spring.Base.{◌+◌, ◌*◌, ◌^◌, ◌≤◌, ◌<◌, ◌≡◌, min, arith}
use utd_cs6v81_spring.Locks.Backoff.{new_backoff, backoff, backoffs}
use utd_cs6v81_spring.Locks.Backoff.Limits.{backoff_lem, limit_wraps}
use utd_cs6v81_spring.Locks.Samples.{lowest}

backoff_lem_example :
    ((backoffs lowest 9 (new_backoff lowest 7 1 128)).limit ≡ min 128 (2 ^ 9 * 1))
    × (1 ≤ (backoff lowest (backoffs lowest 9 (new_backoff lowest 7 1 128))).0)
    × ((backoff lowest (backoffs lowest 9 (new_backoff lowest 7 1 128))).0 ≤ 128)
backoff_lem_example = backoff_lem lowest 7 1 128 9 (omega arith) (omega arith)

limit_wraps_example :
    let b = (backoff lowest (new_backoff lowest 7 (2 ^ 31) (2 ^ 31 + 1))).1 in b.limit < b.min_delay
limit_wraps_example =
    limit_wraps lowest 7 (2 ^ 31) (2 ^ 31 + 1) (omega arith) (omega arith) (omega arith)
