-- ===== src/Locks/Anderson/Exclusion.antt =====
-- Anderson's lock from its constructor on: along every schedule the invariant holds.
use native.Mathlib.Nat.{zero-mod}
use utd_cs6v81_spring.Base.{
  ℕ, zero, suc, ◌+◌, ◌^◌, ◌≤◌, ◌<◌, ◌≡◌, refl, sym, ◌∙◌, Bool, true, false, List, [], ◌∷◌, length,
  get_or, set, length-set, get_or-set_ne, ℕ_discrete, dec_lt, arith,
}
use utd_cs6v81_spring.Base.Family.{tally_const}
use utd_cs6v81_spring.Locks.Algorithm.{
  outside, is_inside, Below, Threads, step, run, fresh, calls, calling, Excludes,
}
use utd_cs6v81_spring.Locks.Anderson.{read_flag, clear_flags, new_alock, alock}
use utd_cs6v81_spring.Locks.Anderson.Ghost.{AlockPhase, ticketed, taking, on_turn, Inv}
use utd_cs6v81_spring.Locks.Anderson.Steps.{Next, move_Next, next}

length-clear_flags :
    (flag : List Bool) (rounds i : ℕ) → length (clear_flags flag rounds i) ≡ length flag
unfolding clear_flags
length-clear_flags flag zero i = refl
length-clear_flags flag (suc k) i =
    length-clear_flags (set flag i false) k (i + 1) ∙ length-set flag i false

get_or_past : (flag : List Bool) (i : ℕ) → length flag ≤ i → get_or flag i false ≡ false
get_or_past [] i h = refl
get_or_past (x ∷ xs) zero h = absurd (omega arith)
get_or_past (x ∷ xs) (suc i) h = get_or_past xs i (omega arith)

set_clear : (flag : List Bool) (i : ℕ) → get_or (set flag i false) i false ≡ false
set_clear [] i = refl
set_clear (x ∷ xs) zero = refl
set_clear (x ∷ xs) (suc i) = set_clear xs i

keep_clear :
    (flag : List Bool) (i j : ℕ)
    → get_or flag j false ≡ false
    → get_or (set flag i false) j false ≡ false
keep_clear flag i j h = elim (ℕ_discrete i j) [
  | yes e ↦ rw e (set_clear flag j)
  | no ne ↦ get_or-set_ne flag i j false false ne ∙ h
]

-- The constructor's loop clears the rest of the array from where it stands.
clear_flags_clear :
    (flag : List Bool) (rounds i j : ℕ)
    → ((k : ℕ) → k < i → get_or flag k false ≡ false)
    → j < i + rounds
    → get_or (clear_flags flag rounds i) j false ≡ false
unfolding clear_flags
clear_flags_clear flag zero i j done h = done j (omega arith)
clear_flags_clear flag (suc rounds) i j done h =
    clear_flags_clear (set flag i false) rounds (i + 1) j
      (λ k p. elim (dec_lt k i) [
        | yes q ↦ keep_clear flag i k (done k q)
        | no q ↦ let e : k ≡ i = omega arith in rw e (set_clear flag i)
      ])
      (omega arith)

module _ (memory : List Bool) (size : ℕ) (long : length memory ≡ size) where
  cleared : (x : ℕ) → get_or (clear_flags memory size 0) x false ≡ false
  cleared x = elim (dec_lt x size) [
    | yes p ↦ clear_flags_clear memory size 0 x (λ k q. absurd (omega arith)) (omega arith)
    | no p ↦
        get_or_past (clear_flags memory size 0) x (omega (arith, length-clear_flags memory size 0))
  ]

  first_lit : (x : ℕ) → read_flag (new_alock memory size) x ≡ true → x ≡ 0
  unfolding new_alock
  first_lit x h = elim (ℕ_discrete x 0) [
    | yes e ↦ e
    | no ne ↦ ground (arith, cleared x, get_or-set_ne (clear_flags memory size 0) 0 x true false)
  ]

  init_Inv :
      (n : ℕ)
      → n ≤ size
      → size < 2 ^ 32
      → Inv n size 0 0 0 (λ _. 0) (new_alock memory size) (λ _. outside)
  unfolding new_alock
  init_Inv n few small = record {
    few = few;
    small = small;
    sized = refl;
    long = length-set (clear_flags memory size 0) 0 true ∙ length-clear_flags memory size 0 ∙ long;
    tail = refl;
    bounded = omega (arith, tally_const taking 0 n (λ _. outside) (λ i _. refl));
    counted = omega (arith, tally_const ticketed 0 n (λ _. outside) (λ i _. refl));
    range = λ i h. absurd (omega arith);
    unique = λ i j h. absurd (omega arith);
    turn = λ i h. absurd (omega arith);
    slots = λ i. tt;
    lit = λ x h. first_lit x h ∙ sym (zero-mod size);
    dark = λ i x h. absurd (omega arith);
  }

  run_Next :
      (n : ℕ) (s : Threads (alock memory size)) (is : List ℕ) (c d : ℕ)
      → Below n is
      → Next n size c s.shared s.phase
      → c + calls (alock memory size) s is ≤ d
      → d < 2 ^ 64
      → Next n size d (run (alock memory size) s is).shared (run (alock memory size) s is).phase
  unfolding run calls step
  run_Next n s [] c d b x h small = next x.inv d (omega arith)
  run_Next n s (i ∷ is) c d b x h small =
      run_Next n (step (alock memory size) s i) is (calling (s.phase i) + c) d b.1
        (move_Next memory size n x.inv i b.0 (omega arith) (s.phase i) refl) (omega arith) small

  -- From the constructor on.
  pub reached :
      (n : ℕ) (is : List ℕ)
      → n ≤ size
      → size < 2 ^ 32
      → Below n is
      → calls (alock memory size) (fresh (alock memory size)) is < 2 ^ 64
      → Next n size
          (calls (alock memory size) (fresh (alock memory size)) is)
          (run (alock memory size) (fresh (alock memory size)) is).shared
          (run (alock memory size) (fresh (alock memory size)) is).phase
  reached n is few small b h =
      run_Next n (fresh (alock memory size)) is 0 _ b
        (record { taken = 0; served = 0; ticket = λ _. 0; inv = init_Inv n few small })
        (omega arith) h

on_turn_inside : (p : AlockPhase) → is_inside p ≡ true → (on_turn p ≡ 1) × (ticketed p ≡ 1)
on_turn_inside p h = ground arith

-- ALock built for at least as many threads as use it, with fewer than 2 ^ 32 slots, whatever the
-- array held before: as long as `lock` has been called fewer than 2 ^ 64 times, never two threads
-- are between the return of `lock` and the call of `unlock`.
pub alock_exclusive :
    (memory : List Bool) (size n : ℕ) (is : List ℕ) (i j : ℕ)
    → length memory ≡ size
    → n ≤ size
    → size < 2 ^ 32
    → Below n is
    → calls (alock memory size) (fresh (alock memory size)) is < 2 ^ 64
    → is_inside ((run (alock memory size) (fresh (alock memory size)) is).phase i) ≡ true
    → is_inside ((run (alock memory size) (fresh (alock memory size)) is).phase j) ≡ true
    → i ≡ j
alock_exclusive memory size n is i j long few small b h in_i in_j =
    let r = reached memory size long n is few small b h in
    let (turn_i, has_i) = on_turn_inside _ in_i in
    let (turn_j, has_j) = on_turn_inside _ in_j in
    r.inv.unique i j has_i has_j (r.inv.turn i turn_i ∙ sym (r.inv.turn j turn_j))

pub alock-Excludes :
    (memory : List Bool) (n : ℕ) → length memory ≡ n → n < 2 ^ 32 → Excludes (alock memory n) n
alock-Excludes memory n long small = record {
  exclusive = λ is i j b h _ _. alock_exclusive memory n n is i j long (omega arith) small b h;
}
