-- ===== src/BoostTypes.antt =====
-- project3/Random.h and project2/BackoffLock.h: which types of boost the names for random numbers
-- stand for, by the version of boost. What the types do is a parameter (Random, RealRandom).
use utd_cs6v81_spring.Base.{ℕ, ◌≡◌, refl, Bool-cases, inl, inr, ◌==◌, if◌then◌else◌}

-- In namespace boost, and in namespace boost::random.
pub data BoostType : Type 0 where
  uniform_real uniform_int mt19937 : BoostType
  uniform_real_distribution uniform_int_distribution random_mt19937 : BoostType

-- The names of Random.h; `real_variate_generator` is a variate_generator of an engine and a
-- distribution, both held by value.
pub record RandomNames : Type 0 where
  pub real_distribution_type : BoostType
  pub int_distribution_type : BoostType
  pub mt_gen : BoostType
  pub real_variate_generator : BoostType × BoostType

unfoldable pub random_names : (boost_version : ℕ) → RandomNames
random_names boost_version =
    if boost_version == 103301
    then record {
      real_distribution_type = uniform_real;
      int_distribution_type = uniform_int;
      mt_gen = mt19937;
      real_variate_generator = (mt19937, uniform_real);
    }
    else record {
      real_distribution_type = uniform_real_distribution;
      int_distribution_type = uniform_int_distribution;
      mt_gen = random_mt19937;
      real_variate_generator = (random_mt19937, uniform_real_distribution);
    }

-- The names of BackoffLock.h.
pub record BackoffNames : Type 0 where
  pub distribution_type : BoostType
  pub mt_gen : BoostType

unfoldable pub backoff_names : (boost_version : ℕ) → BackoffNames
backoff_names boost_version =
    if boost_version == 103301
    then record { distribution_type = uniform_int; mt_gen = mt19937 }
    else record { distribution_type = uniform_int_distribution; mt_gen = random_mt19937 }

-- With any version of boost the two programs draw integers with the same types.
same_names :
    (version : ℕ)
    → ((random_names version).int_distribution_type ≡ (backoff_names version).distribution_type)
      × ((random_names version).mt_gen ≡ (backoff_names version).mt_gen)
unfolding random_names backoff_names
same_names version = elim (Bool-cases (version == 103301)) [
  | inl old ↦ rw old (refl, refl)
  | inr new ↦ rw new (refl, refl)
]
