-- ===== src/Queues/Main/Options.antt =====
-- The options of project1/part3.cpp, written as words.
use utd_cs6v81_spring.Base.{
  ℕ, ◌+◌, ◌^◌, ◌<◌, ◌≡◌, refl, ap, ◌∙◌, ◌&&◌, some, List, [], ◌∷◌, map, Text, codes, same_text, leb,
  if◌then◌else◌,
}
use utd_cs6v81_spring.Queues.Main.{
  QueueType, both, locking, lockfree, Settings, Library, chosen, type_named, option, next_option,
  options,
}

abbrev pub lower_case : ℕ → ℕ
lower_case c = if leb b'A' c && leb c b'Z' then c + 32 else c

-- What boost documents, for the way the program prints numbers: `lexical_cast` reads a number that
-- fits as it is printed, and `iequals` compares without regard to case.
pub record IsLibrary (l : Library) : Type 0 where
  pub cast : (n : ℕ) → n < 2 ^ 32 → l.lexical_cast (l.decimal n) ≡ some n
  pub caseless : (s t : Text) → l.iequals s t ≡ same_text (map lower_case s) (map lower_case t)

abbrev pub type_name : QueueType → Text
type_name both = codes "both"
type_name locking = codes "lock"
type_name lockfree = codes "lockfree"

module _ (l : Library) (lawful : IsLibrary l) where
  open lawful use {cast, caseless}

  same_as :
      (s word name : Text)
      → map lower_case word ≡ name
      → l.iequals s word ≡ same_text (map lower_case s) name
  same_as s word name e = caseless s word ∙ ap (same_text (map lower_case s)) e

  type_named-name :
      (t old : QueueType) (word : Text)
      → map lower_case word ≡ type_name t
      → type_named l word old ≡ t
  type_named-name both old word e =
      rw
        (
          same_as (codes "lock") word _ e,
          same_as (codes "lockfree") word _ e,
          same_as (codes "both") word _ e,
        )
        refl
  type_named-name locking old word e = rw (same_as (codes "lock") word _ e) refl
  type_named-name lockfree old word e =
      rw (same_as (codes "lock") word _ e, same_as (codes "lockfree") word _ e) refl

  option_n :
      (n : ℕ) (s : Settings)
      → n < 2 ^ 32
      → option l (codes "-n") (l.decimal n) s ≡ chosen (record s { n = n })
  unfolding option
  option_n n s h = rw (cast n h) refl

  option_m :
      (m : ℕ) (s : Settings)
      → m < 2 ^ 32
      → option l (codes "-m") (l.decimal m) s ≡ chosen (record s { m = m })
  unfolding option
  option_m m s h = rw (cast m h) refl

  option_t :
      (t : QueueType) (word : Text) (s : Settings)
      → map lower_case word ≡ type_name t
      → option l (codes "-t") word s ≡ chosen (record s { type = t })
  unfolding option
  option_t t word s e = rw (type_named-name t s.type word e) refl

  options_step :
      (name word : Text) (rest : List Text) (s s' : Settings)
      → option l name word s ≡ chosen s'
      → options l (name ∷ word ∷ rest) s ≡ options l rest s'
  unfolding options
  options_step name word rest s s' e = ap (λ c. next_option c (options l rest)) e

  -- Two numbers that fit in 32 bits and a type, its name in letters of either case, given as the
  -- options -n, -m and -t, are the settings.
  pub options-named :
      (word : Text) (n m : ℕ) (t : QueueType) (s : Settings)
      → n < 2 ^ 32
      → m < 2 ^ 32
      → map lower_case word ≡ type_name t
      → options l (codes "-n" ∷ l.decimal n ∷ codes "-m" ∷ l.decimal m ∷ codes "-t" ∷ word ∷ []) s
        ≡ chosen (record { n = n; m = m; type = t })
  unfolding options
  options-named word n m t s hn hm e =
      let count : Settings = record s { n = n } in
      let size : Settings = record count { m = m } in
      options_step (codes "-n") (l.decimal n) (codes "-m" ∷ l.decimal m ∷ codes "-t" ∷ word ∷ []) s
        count (option_n n s hn)
      ∙ options_step (codes "-m") (l.decimal m) (codes "-t" ∷ word ∷ []) count size
          (option_m m count hm)
      ∙ options_step (codes "-t") word [] size (record size { type = t }) (option_t t word size e)
