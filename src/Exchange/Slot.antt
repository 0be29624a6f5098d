-- ===== src/Exchange/Slot.antt =====
-- project3/Exchanger.h, class Slot: a node and a state in one 64-bit word. The state takes the two
-- low bits; the addresses of nodes are multiples of 4, and these bits of theirs are 0. The
-- operations `& 0x3` and `& ~0x3` are `% 4` and `/ 4 * 4`.
use Prim.Native.Nat.{bit_or}
use utd_cs6v81_spring.Base.{
  ℕ, ◌+◌, ◌*◌, ◌/◌, ◌%◌, ◌≡◌, ap, sym, ◌∙◌, ◌↔◌, Bool, true, false, Option, none, some, ◌==◌, arith,
  if◌then◌else◌,
}

pub data ExchangeState : Type 0 where
  empty waiting busy : ExchangeState

abbrev pub code : ExchangeState → ℕ
code empty = 0
code waiting = 1
code busy = 2

-- The cast of the two bits; 3 is none of the states.
abbrev pub state_of : ℕ → Option ExchangeState
state_of b =
    if b == 0
    then some empty
    else if b == 1
    then some waiting
    else if b == 2
    then some busy
    else none

-- `(uint64_t)n | (state & 0x3)`
unfoldable pub word : ℕ → ExchangeState → ℕ
word n state = n / 4 * 4 + bit_or (n % 4) (code state)

-- `get`: the node and the state. The code reads `data` once for each; this is one read of both, and
-- what `exchange` does with them is checked again by its compare and swap.
unfoldable pub get : ℕ → ℕ × Option ExchangeState
get w = (w / 4 * 4, state_of (w % 4))

-- `compareAndSet`: whether it stored, and the word afterwards.
unfoldable pub compare_and_set :
    ℕ → (old_node new_node : ℕ) → (old_state new_state : ExchangeState) → Bool × ℕ
unfolding word
compare_and_set w old_node new_node old_state new_state =
    if w == word old_node old_state then (true, word new_node new_state) else (false, w)

-- What `set` stores of an aligned node.
pub word-add : (n : ℕ) (s : ExchangeState) → n % 4 ≡ 0 → word n s ≡ n + code s
unfolding word
word-add n empty h = rw h (omega arith)
word-add n waiting h = rw h (omega arith)
word-add n busy h = rw h (omega arith)

pub get-set : (n : ℕ) (s : ExchangeState) → n % 4 ≡ 0 → get (word n s) ≡ (n, some s)
unfolding get
get-set n empty h = rw (word-add n empty h) (ground arith)
get-set n waiting h = rw (word-add n waiting h) (ground arith)
get-set n busy h = rw (word-add n busy h) (ground arith)

word_injective :
    (n m : ℕ) (s t : ExchangeState)
    → n % 4 ≡ 0
    → m % 4 ≡ 0
    → word n s ≡ word m t
    → (n ≡ m) × (s ≡ t)
word_injective n m s t h k e =
    let same = sym (get-set n s h) ∙ ap get e ∙ get-set m t k in
    (ap (λ g. g.0) same, cc (ap (λ g. g.1) same))

-- For nodes at multiples of 4: what `set` stores, `get` gives back; and `compareAndSet` stores
-- exactly when the slot holds the old node in the old state.
pub slot_round_trip :
    (n m new : ℕ) (s t u : ExchangeState)
    → n % 4 ≡ 0
    → m % 4 ≡ 0
    → (get (word n s) ≡ (n, some s))
      × (((compare_and_set (word n s) m new t u).0 ≡ true) ↔ ((n ≡ m) × (s ≡ t)))
unfolding compare_and_set
slot_round_trip n m new s t u h k =
    (get-set n s h, ((λ e. word_injective n m s t h k (ground arith)), λ e. ground (arith, e)))
