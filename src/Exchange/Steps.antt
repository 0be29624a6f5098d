-- ===== src/Exchange/Steps.antt =====
-- What the threads know of the slot, and that every step of every thread keeps it.
use utd_cs6v81_spring.Base.{
  ℕ, ◌+◌, ◌*◌, ◌/◌, ◌%◌, ◌≤◌, ◌≡◌, ◌≢◌, refl, Bool, true, false, ◌==◌, Option, some, Bool-cases,
  inl, inr, arith, if◌then◌else◌,
}
use utd_cs6v81_spring.Times.{Timespec, less, greater}
use utd_cs6v81_spring.Exchange.{
  Pc, entering, checking, reading, offering, taking, watching, looking, withdrawing, collecting,
  clearing, returned, timed_out, watch, move,
}
use utd_cs6v81_spring.Exchange.Slot.{
  ExchangeState, code, get, compare_and_set, empty, waiting, busy, word-add,
}

abbrev pub one_if : Bool → ℕ
one_if b = if b then 1 else 0

-- Whether the thread has an offer in the slot, or an answer to it.
abbrev pub owns : Pc → ℕ
owns (watching n bound) = 1
owns (looking n bound current) = 1
owns (withdrawing n) = 1
owns (collecting n) = 1
owns (clearing item) = 1
owns p = 0

abbrev pub occupied : ℕ → ℕ
occupied w = if w == 0 then 0 else 1

-- How often the thread holds the node `v`; the node of an owner is in the slot.
abbrev pub holds : ℕ → Pc → ℕ
holds v (entering n) = one_if (n == v)
holds v (checking n bound) = one_if (n == v)
holds v (reading n bound current) = one_if (n == v)
holds v (offering n bound current item) = one_if (n == v)
holds v (taking n bound item) = one_if (n == v)
holds v (returned item) = one_if (item == v)
holds v (timed_out n) = one_if (n == v)
holds v p = 0

abbrev pub slot_holds : ℕ → ℕ → ℕ
slot_holds v w = if w == 0 then 0 else one_if (w / 4 * 4 == v)

-- The words that occur.
abbrev pub IsWord : ℕ → Type 0
IsWord w = (w % 4 ≢ 3) × (w % 4 ≡ 0 → w ≡ 0)

-- An owner's node stands in the slot until another thread answers.
abbrev pub Offered : ℕ → ℕ → Type 0
Offered w n = (n % 4 ≡ 0) × (w % 4 ≡ 1 → w ≡ n + 1)

abbrev pub Knows : ℕ → Pc → Type 0
Knows w (entering n) = n % 4 ≡ 0
Knows w (checking n bound) = n % 4 ≡ 0
Knows w (reading n bound current) = n % 4 ≡ 0
Knows w (offering n bound current item) = (n % 4 ≡ 0) × (item ≡ 0)
Knows w (taking n bound item) = (n % 4 ≡ 0) × (item % 4 ≡ 0)
Knows w (watching n bound) = Offered w n
Knows w (looking n bound current) = Offered w n
Knows w (withdrawing n) = Offered w n
Knows w (collecting n) = (n % 4 ≡ 0) × (w % 4 ≡ 2)
Knows w (clearing item) = (item % 4 ≡ 0) × (w ≡ item + 2)
Knows w (returned item) = item % 4 ≡ 0
Knows w (timed_out n) = n % 4 ≡ 0

-- What a step from word `w` and place `p` to `w'` and `p'` keeps: the knowledge of the thread and of
-- every other, the slot's owner, and the nodes.
pub record Kept (w : ℕ) (p : Pc) (w' : ℕ) (p' : Pc) : Type 0 where
  pub is_word : IsWord w'
  pub knows : Knows w' p'
  pub others : (q : Pc) → owns p + owns q ≤ occupied w → Knows w q → Knows w' q
  pub owner : owns p' + occupied w ≡ owns p + occupied w'
  pub nodes : (v : ℕ) → slot_holds v w' + holds v p' ≡ slot_holds v w + holds v p

-- The word stays, and the thread still owns as much.
stay :
    (w : ℕ) (p p' : Pc)
    → IsWord w
    → Knows w p'
    → owns p' ≡ owns p
    → ((v : ℕ) → holds v p' ≡ holds v p)
    → Kept w p w p'
stay w p p' i k e h = record {
  is_word = i;
  knows = k;
  others = λ q few known. known;
  owner = omega (arith, e);
  nodes = λ v. omega (arith, h v);
}

-- What `get` gives on the words that occur.
data Got (w : ℕ) (g : ℕ × Option ExchangeState) : Type 0 where
  vacant : w ≡ 0 → g ≡ (0, some empty) → Got w g
  offered : w % 4 ≡ 1 → g ≡ (w / 4 * 4, some waiting) → Got w g
  answered : w % 4 ≡ 2 → g ≡ (w / 4 * 4, some busy) → Got w g

get-Got : (w : ℕ) → IsWord w → Got w (get w)
unfolding get
get-Got w i = elim (Bool-cases (w % 4 == 0)) [
  | inl zero ↦ vacant (ground (arith, i)) (ground (arith, i))
  | inr some_bits ↦ elim (Bool-cases (w % 4 == 1)) [
    | inl one ↦ offered (ground arith) (ground arith)
    | inr other ↦ answered (ground (arith, i)) (ground (arith, i))
  ]
]

get-busy : (w : ℕ) → w % 4 ≡ 2 → ((get w).0 % 4 ≡ 0) × (w ≡ (get w).0 + 2)
unfolding get
get-busy w h = omega arith

-- What a compare and swap of aligned nodes gives.
data Swap (w old new : ℕ) (r : Bool × ℕ) : Type 0 where
  hit : w ≡ old → r ≡ (true, new) → Swap w old new r
  miss : w ≢ old → r ≡ (false, w) → Swap w old new r

swap :
    (w m n : ℕ) (s t : ExchangeState)
    → m % 4 ≡ 0
    → n % 4 ≡ 0
    → Swap w (m + code s) (n + code t) (compare_and_set w m n s t)
unfolding compare_and_set
swap w m n s t hm hn =
    rw (word-add m s hm, word-add n t hn)
      (elim (Bool-cases (w == m + code s)) [
        | inl same ↦ rw same (hit (ground arith) refl)
        | inr differs ↦ rw differs (miss (λ e. ground arith) refl)
      ])

either :
    (P : Pc → Type 0) (n : ℕ) (bound current : Timespec)
    → P (watching n bound)
    → P (withdrawing n)
    → P (watch n bound current)
either P n bound current a b = elim (Bool-cases (less current bound)) [
  | inl early ↦ rw early a
  | inr late ↦ rw late b
]

-- A thread that owns nothing knows nothing of the slot, and an owner is ready for the answer.
Knows-other : (w w' : ℕ) (q : Pc) → owns q ≡ 0 → Knows w q → Knows w' q
Knows-other w w' (entering n) e k = k
Knows-other w w' (checking n bound) e k = k
Knows-other w w' (reading n bound current) e k = k
Knows-other w w' (offering n bound current item) e k = k
Knows-other w w' (taking n bound item) e k = k
Knows-other w w' (watching n bound) e k = absurd (omega arith)
Knows-other w w' (looking n bound current) e k = absurd (omega arith)
Knows-other w w' (withdrawing n) e k = absurd (omega arith)
Knows-other w w' (collecting n) e k = absurd (omega arith)
Knows-other w w' (clearing item) e k = absurd (omega arith)
Knows-other w w' (returned item) e k = k
Knows-other w w' (timed_out n) e k = k

Knows-answered : (w w' : ℕ) (q : Pc) → w % 4 ≡ 1 → w' % 4 ≡ 2 → Knows w q → Knows w' q
Knows-answered w w' (entering n) o a k = k
Knows-answered w w' (checking n bound) o a k = k
Knows-answered w w' (reading n bound current) o a k = k
Knows-answered w w' (offering n bound current item) o a k = k
Knows-answered w w' (taking n bound item) o a k = k
Knows-answered w w' (watching n bound) o a k = (k.0, λ one. absurd (omega arith))
Knows-answered w w' (looking n bound current) o a k = (k.0, λ one. absurd (omega arith))
Knows-answered w w' (withdrawing n) o a k = (k.0, λ one. absurd (omega arith))
Knows-answered w w' (collecting n) o a k = absurd (omega (arith, k))
Knows-answered w w' (clearing item) o a k = absurd (omega (arith, k))
Knows-answered w w' (returned item) o a k = k
Knows-answered w w' (timed_out n) o a k = k

slot_held : (w n b v : ℕ) → n % 4 ≡ 0 → w ≡ n + b → 1 ≤ b → b ≤ 2 → slot_holds v w ≡ one_if (n == v)
slot_held w n b v h e lo hi =
    let node : w / 4 * 4 ≡ n = omega arith in rw node (ground (arith, e, lo))

-- The four steps that write the slot.
module _ (w n : ℕ) (aligned : n % 4 ≡ 0) where
  offer_Kept :
      (item : ℕ) (bound current : Timespec) (p' : Pc)
      → w ≡ 0
      → Knows (n + 1) p'
      → owns p' ≡ 1
      → ((v : ℕ) → holds v p' ≡ 0)
      → Kept w (offering n bound current item) (n + 1) p'
  offer_Kept item bound current p' e k own h = record {
    is_word = ((λ q. omega (arith, q)), λ q. absurd (omega arith));
    knows = k;
    others = λ q few known. Knows-other w (n + 1) q (ground (arith, few, e)) known;
    owner = ground (arith, e, own);
    nodes = λ v.
        ground (arith, h v, e, slot_held (n + 1) n 1 v aligned refl (omega arith) (omega arith));
  }

  answer_Kept :
      (item : ℕ) (bound : Timespec)
      → item % 4 ≡ 0
      → w ≡ item + 1
      → Kept w (taking n bound item) (n + 2) (returned item)
  answer_Kept item bound h e = record {
    is_word = ((λ q. omega (arith, q)), λ q. absurd (omega arith));
    knows = h;
    others = λ q few known. Knows-answered w (n + 2) q (omega arith) (omega arith) known;
    owner = ground (arith, e);
    nodes = λ v. omega (
      arith,
      slot_held (n + 2) n 2 v aligned refl (omega arith) (omega arith),
      slot_held (w) item 1 v h e (omega arith) (omega arith),
    );
  }

  withdraw_Kept : w ≡ n + 1 → Kept w (withdrawing n) 0 (timed_out n)
  withdraw_Kept e = record {
    is_word = ((λ q. omega arith), λ q. refl);
    knows = aligned;
    others = λ q few known. Knows-other w 0 q (ground (arith, few, e)) known;
    owner = ground (arith, e);
    nodes = λ v. omega (arith, slot_held (w) n 1 v aligned e (omega arith) (omega arith));
  }

  clear_Kept : w ≡ n + 2 → Kept w (clearing n) 0 (returned n)
  clear_Kept e = record {
    is_word = ((λ q. omega arith), λ q. refl);
    knows = aligned;
    others = λ q few known. Knows-other w 0 q (ground (arith, few, e)) known;
    owner = ground (arith, e);
    nodes = λ v. omega (arith, slot_held (w) n 2 v aligned e (omega arith) (omega arith));
  }

module _ (w : ℕ) (now : Timespec) (i : IsWord w) where
  pub move-Kept :
      (p : Pc) → Knows w p → owns p ≤ occupied w → Kept w p (move w p now).0 (move w p now).1
  unfolding move
  move-Kept (entering n) k few = stay w _ _ i k refl (λ v. refl)
  move-Kept (checking n bound) k few = elim (Bool-cases (greater now bound)) [
    | inl late ↦ rw late (stay w _ _ i k refl (λ v. refl))
    | inr early ↦ rw early (stay w _ _ i k refl (λ v. refl))
  ]
  move-Kept (reading n bound current) k few = elim (get-Got w i) [
    | vacant z g ↦ rw g (stay w _ _ i (k, refl) refl (λ v. refl))
    | offered o g ↦ rw g (stay w _ _ i (k, omega arith) refl (λ v. refl))
    | answered o g ↦ rw g (stay w _ _ i k refl (λ v. refl))
  ]
  move-Kept (offering n bound current item) k few =
      elim (swap w item n empty waiting (omega (arith, k.1)) k.0) [
        | hit e g ↦ rw g (
            either (Kept w (offering n bound current item) (n + 1)) n bound current
              (offer_Kept w n k.0 item bound current _ (omega (arith, e, k.1)) (k.0, λ q. refl) refl
                (λ v. refl))
              (offer_Kept w n k.0 item bound current _ (omega (arith, e, k.1)) (k.0, λ q. refl) refl
                (λ v. refl)))
        | miss e g ↦ rw g (stay w _ _ i k.0 refl (λ v. refl))
      ]
  move-Kept (taking n bound item) k few = elim (swap w item n waiting busy k.1 k.0) [
    | hit e g ↦ rw g (answer_Kept w n k.0 item bound k.1 e)
    | miss e g ↦ rw g (stay w _ _ i k.0 refl (λ v. refl))
  ]
  move-Kept (watching n bound) k few = stay w _ _ i k refl (λ v. refl)
  move-Kept (looking n bound current) k few = elim (get-Got w i) [
    | vacant z g ↦ rw g (absurd (ground (arith, z, few)))
    | offered o g ↦ rw g (
        either (Kept w (looking n bound current) w) n bound current
          (stay w _ _ i k refl (λ v. refl)) (stay w _ _ i k refl (λ v. refl)))
    | answered o g ↦ rw g (stay w _ _ i (omega arith) refl (λ v. refl))
  ]
  move-Kept (withdrawing n) k few = elim (swap w n 0 waiting empty k.0 refl) [
    | hit e g ↦ rw g (withdraw_Kept w n k.0 e)
    | miss e g ↦ rw g (stay w _ _ i (k.0, ground (arith, i, few, k, e)) refl (λ v. refl))
  ]
  move-Kept (collecting n) k few = stay w _ _ i (get-busy w k.1) refl (λ v. refl)
  move-Kept (clearing item) k few = rw (word-add 0 empty refl) (clear_Kept w item k.0 k.1)
  move-Kept (returned item) k few = stay w _ _ i k refl (λ v. refl)
  move-Kept (timed_out n) k few = stay w _ _ i k refl (λ v. refl)
