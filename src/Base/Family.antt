-- ===== src/Base/Family.antt =====
-- Values indexed by threads. `update` writes one of them; `tally w n f` adds up what the weight `w`
-- makes of the first `n`.
use Prim.Native.Nat.{ℕ, zero, suc, ◌+◌, ◌*◌, ◌≤◌, ◌<◌}
use mathlib.Core.Path.{◌≡◌, refl}
use mathlib.Core.Logic.{ite, ◌≢◌}
use mathlib.Core.List.{List, [], ◌∷◌}
use native.Mathlib.Decide.{ℕ_discrete}
use native.Mathlib.Omega.{arith}

abbrev pub update {ℓ} : {V : Type ℓ} (f : ℕ → V) (at : ℕ) (v : V) → ℕ → V
update f at v = λ j. ite (ℕ_discrete at j) v (f j)

-- A schedule whose turns are those of the first `n` threads.
abbrev pub Within : {A : Type 0} → ℕ → List (ℕ × A) → Type 0
Within n [] = Unit
Within n ((i, x) ∷ turns) = (i < n) × Within n turns

module _ {ℓ} {V : Type ℓ} (w : V → ℕ) where
  unfoldable pub tally : ℕ → (ℕ → V) → ℕ
  tally zero f = 0
  tally (suc n) f = w (f n) + tally n f

  -- Bounds of the summands bound the sum.
  pub tally_bounded : (k n : ℕ) (f : ℕ → V) → ((i : ℕ) → i < n → w (f i) ≤ k) → tally n f ≤ n * k
  unfolding tally
  tally_bounded k zero f h = omega arith
  tally_bounded k (suc n) f h =
      omega (arith, h n (omega arith), tally_bounded k n f (λ i p. h i (omega arith)))

  pub tally_const : (k n : ℕ) (f : ℕ → V) → ((i : ℕ) → i < n → w (f i) ≡ k) → tally n f ≡ n * k
  unfolding tally
  tally_const k zero f h = omega arith
  tally_const k (suc n) f h =
      omega (arith, h n (omega arith), tally_const k n f (λ i p. h i (omega arith)))

  -- One summand, and two at different places, are part of the sum.
  pub le-tally : (n : ℕ) (f : ℕ → V) (i : ℕ) → i < n → w (f i) ≤ tally n f
  unfolding tally
  le-tally zero f i h = elim h [ ]
  le-tally (suc n) f i h = ground (arith, le-tally n f i)

  pub add-le-tally :
      (n : ℕ) (f : ℕ → V) (i j : ℕ) → i < n → j < n → i ≢ j → w (f i) + w (f j) ≤ tally n f
  unfolding tally
  add-le-tally zero f i j p q ne = elim p [ ]
  add-le-tally (suc n) f i j p q ne =
      ground (arith, add-le-tally n f i j, le-tally n f i, le-tally n f j)

  -- A write at or past the end leaves the sum alone; any other exchanges one summand.
  beyond : (f : ℕ → V) (at : ℕ) (v : V) (n : ℕ) → n ≤ at → tally n (update f at v) ≡ tally n f
  unfolding tally
  beyond f at v zero h = refl
  beyond f at v (suc n) h = ground (arith, beyond f at v n)

  pub tally-update :
      (n : ℕ) (f : ℕ → V) (at : ℕ) (v : V)
      → at < n
      → tally n (update f at v) + w (f at) ≡ tally n f + w v
  unfolding tally
  tally-update zero f at v h = elim h [ ]
  tally-update (suc n) f at v h = ground (arith, beyond f at v n, tally-update n f at v)

pub tally_same {ℓ} :
    {V : Type ℓ} (w u : V → ℕ) (n : ℕ) (f : ℕ → V)
    → ((i : ℕ) → i < n → w (f i) ≡ u (f i))
    → tally w n f ≡ tally u n f
unfolding tally
tally_same w u zero f h = refl
tally_same w u (suc n) f h =
    omega (arith, h n (omega arith), tally_same w u n f (λ i p. h i (omega arith)))

pub tally_add {ℓ} :
    {V : Type ℓ} (w u : V → ℕ) (n : ℕ) (f : ℕ → V)
    → tally (λ v. w v + u v) n f ≡ tally w n f + tally u n f
unfolding tally
tally_add w u zero f = omega arith
tally_add w u (suc n) f = omega (arith, tally_add w u n f)
