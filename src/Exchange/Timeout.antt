-- ===== src/Exchange/Timeout.antt =====
-- project3/Exchanger.h, TimeoutException: its text. How a stream prints a number is a parameter.
use utd_cs6v81_spring.Base.{ℕ, ◌≡◌, refl, ◌++◌, Text, codes}

pub record TimeoutException : Type 0 where
  pub str : Text

-- The three constructors.
abbrev pub timed_out_default : TimeoutException
timed_out_default = record { str = codes "Timed Out" }

abbrev pub timed_out_with : Text → TimeoutException
timed_out_with s = record { str = s }

abbrev pub timed_out_at : (ℕ → Text) → (msg f : Text) → ℕ → TimeoutException
timed_out_at decimal msg f l = record {
  str = msg ++ codes " (" ++ f ++ codes ":" ++ decimal l ++ codes ")";
}

abbrev pub what : TimeoutException → Text
what e = e.str

-- For a number that is printed as one digit.
at_line :
    what (timed_out_at (λ n. codes "7") (codes "late") (codes "a.cpp") 7) ≡ codes "late (a.cpp:7)"
at_line = refl
