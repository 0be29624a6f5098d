-- ===== src/Harness/Samples.antt =====
-- Values of the parameters of the harness, for its tests.
use utd_cs6v81_spring.Base.{
  ℕ, zero, suc, ◌-◌, ◌≡◌, refl, false, ◌&&◌, Option, none, some, [], ◌∷◌, Text, leb, ◌==◌, arith,
  if◌then◌else◌,
}
use utd_cs6v81_spring.Harness.Args.{Boost}
use utd_cs6v81_spring.Harness.Args.Laws.{has_lower, IsBoost}

-- Numbers in unary, after a digit.
abbrev pub decimal : ℕ → Text
decimal zero = b'0' ∷ []
decimal (suc n) = b'1' ∷ decimal n

abbrev read : Text → Option ℕ
read [] = none
read (c ∷ s) = if c == b'0' then some 0 else elim (read s) [ none ↦ none | some n ↦ some (suc n) ]

abbrev upper : ℕ → ℕ
upper c = if leb b'a' c && leb c b'z' then c - 32 else c

abbrev to_upper : Text → Text
to_upper [] = []
to_upper (c ∷ s) = upper c ∷ to_upper s

abbrev pub boost : Boost
boost = record { to_upper = to_upper; lexical_cast = read }

to_upper-same : (s : Text) → has_lower s ≡ false → to_upper s ≡ s
to_upper-same [] h = refl
to_upper-same (c ∷ s) h = ground (arith, to_upper-same s)

decimal-has_lower : (n : ℕ) → has_lower (decimal n) ≡ false
decimal-has_lower zero = refl
decimal-has_lower (suc n) = decimal-has_lower n

read-decimal : (n : ℕ) → read (decimal n) ≡ some n
read-decimal zero = refl
read-decimal (suc n) = rw (read-decimal n) refl

pub boost-IsBoost : IsBoost boost decimal
boost-IsBoost = record {
  upper = to_upper-same;
  digits = decimal-has_lower;
  cast = λ n h. read-decimal n;
}
