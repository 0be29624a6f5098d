-- ===== src/Exchange/Alone.antt =====
-- A call of `exchange` whose steps no other thread interrupts.
use mathlib.Core.Logic.{if_pos}
use utd_cs6v81_spring.Base.{
  ℕ, ◌%◌, ◌≡◌, refl, ap, ◌∙◌, true, false, List, [], ◌∷◌, ==_iff, some, ℕ_discrete,
}
use utd_cs6v81_spring.Times.{Timespec, less, greater}
use utd_cs6v81_spring.Exchange.{Pc, entering, timed_out, bound_from, move, State, step, run}
use utd_cs6v81_spring.Exchange.Slot.{empty, waiting, word, get, get-set, compare_and_set}

-- The word and the place after some steps, by what the clock says at each.
solo : ℕ → Pc → List Timespec → ℕ × Pc
solo w p [] = (w, p)
solo w p (now ∷ times) = let (w', p') = move w p now in solo w' p' times

abbrev pub turns_of : ℕ → List Timespec → List (ℕ × Timespec)
turns_of i [] = []
turns_of i (now ∷ times) = (i, now) ∷ turns_of i times

run-solo :
    (s : State) (i : ℕ) (times : List Timespec)
    → let t = run s (turns_of i times) in
      (t.slot ≡ (solo s.slot (s.pc i) times).0) × (t.pc i ≡ (solo s.slot (s.pc i) times).1)
unfolding run solo step
run-solo s i [] = (refl, refl)
run-solo s i (now ∷ times) =
    let same : (step s i now).pc i ≡ (move s.slot (s.pc i) now).1 =
      if_pos (ℕ_discrete i i) refl _ _ in
    let (slot, place) = run-solo (step s i now) i times in
    (slot ∙ rw same refl, place ∙ rw same refl)

get-vacant : get 0 ≡ (0, some empty)
unfolding get
get-vacant = refl

offer_swap : (n : ℕ) → compare_and_set 0 0 n empty waiting ≡ (true, word n waiting)
unfolding compare_and_set word
offer_swap n = refl

withdraw_swap : (n : ℕ) → compare_and_set (word n waiting) n 0 waiting empty ≡ (true, 0)
unfolding compare_and_set
withdraw_swap n = rw ((==_iff (word n waiting) (word n waiting)).1 refl) refl

not_late : (a b : Timespec) → less a b ≡ true → greater a b ≡ false
unfolding greater
not_late a b h = rw h refl

solo_times_out :
    (n : ℕ) (entry early late other : Timespec)
    → n % 4 ≡ 0
    → less early (bound_from entry) ≡ true
    → less late (bound_from entry) ≡ false
    → solo 0 (entering n) (entry ∷ early ∷ other ∷ other ∷ late ∷ other ∷ other ∷ [])
      ≡ (0, timed_out n)
unfolding solo move
solo_times_out n entry early late other aligned before after =
    rw
      (
        not_late early (bound_from entry) before,
        get-vacant,
        offer_swap n,
        before,
        get-set n waiting aligned,
        after,
        withdraw_swap n,
      )
      refl

-- A thread whose steps no other thread interrupts, on an EMPTY slot: if its first reading of the
-- clock in the loop is before the bound and its second is not, `exchange` throws a
-- TimeoutException, and the slot is EMPTY again.
pub exchange_times_out :
    (n : ℕ) (s : State) (i : ℕ) (entry early late other : Timespec)
    → n % 4 ≡ 0
    → s.slot ≡ 0
    → s.pc i ≡ entering n
    → less early (bound_from entry) ≡ true
    → less late (bound_from entry) ≡ false
    → let t = run s (turns_of i (entry ∷ early ∷ other ∷ other ∷ late ∷ other ∷ other ∷ [])) in
      (t.slot ≡ 0) × (t.pc i ≡ timed_out n)
exchange_times_out n s i entry early late other aligned vacant at before after =
    let times = entry ∷ early ∷ other ∷ other ∷ late ∷ other ∷ other ∷ [] in
    let (slot, place) = run-solo s i times in
    let alone = solo_times_out n entry early late other aligned before after in
    let shape : solo s.slot (s.pc i) times ≡ (0, timed_out n) = rw (vacant, at) alone in
    (slot ∙ ap (λ r. r.0) shape, place ∙ ap (λ r. r.1) shape)
