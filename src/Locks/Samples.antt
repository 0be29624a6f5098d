-- ===== src/Locks/Samples.antt =====
-- Values for what the locks take from elsewhere.
use native.Mathlib.Nat.{le_refl}
use utd_cs6v81_spring.Base.{
  ℕ, zero, suc, [], ◌∷◌, ◌<◌, Text, arith, ◌≡◌, refl, Bool, true, false, Option, none, some,
  replicate, length-replicate,
}
use utd_cs6v81_spring.Locks.Backoff.{Random}
use utd_cs6v81_spring.Locks.Spin.{Mutex}
use utd_cs6v81_spring.Locks.Create.{Environment}
use utd_cs6v81_spring.Locks.Args.Laws.{IsDecimal}
use utd_cs6v81_spring.Harness.Samples.{decimal}

-- A generator that always draws the lower bound, and counts.
abbrev pub lowest : Random
lowest = record {
  Gen = ℕ;
  seed = λ s. s;
  draw = λ a b g. (a, suc g);
  draw_bounds = λ a b g h. (le_refl a, h);
}

abbrev pub try_bit : Bool → Option Bool
try_bit true = none
try_bit false = some true

pub bit_free : (s : Bool) → s ≡ false → (s' : Bool) × (try_bit s ≡ some s') × (s' ≡ true)
bit_free true h = cc
bit_free false h = (true, refl, refl)

pub bit_held : (s : Bool) → s ≡ true → try_bit s ≡ none
bit_held true h = refl
bit_held false h = cc

abbrev pub bit_mutex : Mutex
bit_mutex = record {
  State = Bool;
  fresh = false;
  held = λ s. s;
  acquire = try_bit;
  release = λ s. false;
  fresh_free = refl;
  acquire_free = bit_free;
  acquire_held = bit_held;
  release_free = λ s. refl;
}

abbrev pub clean : Environment
clean = record {
  random = lowest;
  mutex = bit_mutex;
  backoff_memory = false;
  array_memory = λ n. replicate n true;
  array_long = λ n. length-replicate n true;
}

first_digit : (n : ℕ) → (d : ℕ) × (rest : Text) × (decimal n ≡ d ∷ rest) × (d < b'A')
first_digit zero = (b'0', [], refl, omega arith)
first_digit (suc n) = (b'1', decimal n, refl, omega arith)

pub decimal-IsDecimal : IsDecimal decimal
decimal-IsDecimal = record { first = first_digit }
