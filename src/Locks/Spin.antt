-- ===== src/Locks/Spin.antt =====
-- project2/TASLock.cpp, TTASLock.cpp, BackoffLock.cpp and PThreadLock.cpp. A flag says whether
-- `state` is AO_TS_SET. The yields change no state.
pub mod Exclusion
pub mod Progress
mod Tests
use utd_cs6v81_spring.Base.{ℕ, ◌≡◌, Bool, true, false, Option, none, some, if◌then◌else◌}
use utd_cs6v81_spring.Locks.Algorithm.{Algorithm}
use utd_cs6v81_spring.Locks.Backoff.{Random, Backoff, new_backoff, backoff}

-- `AO_test_and_set`: what the flag was, and the flag set.
abbrev pub test_and_set : Bool → Bool × Bool
test_and_set state = (state, true)

-- A method with one place to stand.
abbrev pub Only : Type 0
Only = Unit

-- `while (AO_test_and_set(&state) == AO_TS_SET);`
unfoldable pub tas_lock_step : Bool → Only → Bool × Option Only
tas_lock_step state l =
    let (was, state') = test_and_set state in (state', if was then some l else none)

-- `AO_CLEAR(&state)`
unfoldable pub clear_step : Bool → Only → Bool × Option Only
clear_step state u = (false, none)

abbrev pub tas_lock : Algorithm
tas_lock = record {
  Shared = Bool;
  Locking = Only;
  Unlocking = Only;
  init = false;
  enter = λ _. tt;
  leave = tt;
  lock_step = tas_lock_step;
  unlock_step = clear_step;
}

-- In the inner loop, or about to test and set.
pub data TtasPc : Type 0 where
  spin grab : TtasPc

pub ttas_lock_step : Bool → TtasPc → Bool × Option TtasPc
ttas_lock_step state spin = (state, some (if state then spin else grab))
ttas_lock_step state grab =
    let (was, state') = test_and_set state in (state', if was then some spin else none)

abbrev pub ttas_lock : Algorithm
ttas_lock = record {
  Shared = Bool;
  Locking = TtasPc;
  Unlocking = Only;
  init = false;
  enter = λ _. spin;
  leave = tt;
  lock_step = ttas_lock_step;
  unlock_step = clear_step;
}

module _ (r : Random) where
  open r use {Gen, seed}

  pub record BackoffShared : Type 0 where
    pub state : Bool
    pub min_delay : ℕ
    pub max_delay : ℕ
    pub gen : Gen

  -- About to test and set, or, after a sleep of `delay`, about to read `state`.
  pub data BackoffPc : Type 0 where
    attempt : Backoff r → BackoffPc
    slept : (delay : ℕ) → Backoff r → BackoffPc

  -- The `do` body again, and the body of `while (1)` again: both begin with the test and set.
  abbrev repeat_do : Backoff r → BackoffPc
  repeat_do b = attempt b

  abbrev repeat_while : Backoff r → BackoffPc
  repeat_while b = attempt b

  unfoldable pub backoff_lock_step : BackoffShared → BackoffPc → BackoffShared × Option BackoffPc
  backoff_lock_step m (attempt b) =
      let (was, state') = test_and_set m.state in
      let (delay, b') = backoff r b in
      (record m { state = state' }, if was then some (slept delay b') else none)
  backoff_lock_step m (slept delay b) = (m, some (if m.state then repeat_do b else repeat_while b))

  pub backoff_unlock_step : BackoffShared → Only → BackoffShared × Option Only
  backoff_unlock_step m u = (record m { state = false }, none)

  -- The constructor leaves `state` alone: `memory` is what the allocated byte held.
  abbrev pub backoff_lock : (memory : Bool) (min_delay max_delay : ℕ) → Algorithm
  backoff_lock memory lo hi = record {
    Shared = BackoffShared;
    Locking = BackoffPc;
    Unlocking = Only;
    init = record { state = memory; min_delay = lo; max_delay = hi; gen = seed 0x55aaff00 };
    enter = λ m. attempt (new_backoff r m.gen m.min_delay m.max_delay);
    leave = tt;
    lock_step = backoff_lock_step;
    unlock_step = backoff_unlock_step;
  }

-- A pthread mutex; `acquire` gives nothing where the caller is blocked.
pub record Mutex : Type 1 where
  pub State : Type 0
  pub fresh : State
  pub held : State → Bool
  pub acquire : State → Option State
  pub release : State → State
  pub fresh_free : held fresh ≡ false
  pub acquire_free :
      (s : State) → held s ≡ false → (s' : State) × (acquire s ≡ some s') × (held s' ≡ true)
  pub acquire_held : (s : State) → held s ≡ true → acquire s ≡ none
  pub release_free : (s : State) → held (release s) ≡ false

module _ (x : Mutex) where
  open x use {State, fresh, acquire, release}

  abbrev blocked_or : State → Option State → State × Option Only
  blocked_or s none = (s, some tt)
  blocked_or s (some s') = (s', none)

  unfoldable pub pthread_lock_step : State → Only → State × Option Only
  pthread_lock_step s l = blocked_or s (acquire s)

  unfoldable pub pthread_unlock_step : State → Only → State × Option Only
  pthread_unlock_step s u = (release s, none)

  abbrev pub pthread_lock : Algorithm
  pthread_lock = record {
    Shared = State;
    Locking = Only;
    Unlocking = Only;
    init = fresh;
    enter = λ _. tt;
    leave = tt;
    lock_step = pthread_lock_step;
    unlock_step = pthread_unlock_step;
  }
