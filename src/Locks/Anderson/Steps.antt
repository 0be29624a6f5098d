-- ===== src/Locks/Anderson/Steps.antt =====
-- Every step of a thread at an Anderson lock keeps the invariant of Ghost.antt.
use native.Mathlib.Nat.{mod-add-mod, mod-lt, mod-eq_of_lt}
use utd_cs6v81_spring.Base.{
  ℕ, suc, ◌+◌, ◌%◌, ◌^◌, ◌≤◌, ◌<◌, ◌≡◌, refl, sym, ap, ◌∙◌, Bool, true, false, List, length, get_or,
  set, length-set, get_or-set_self, get_or-set_ne, ℕ_discrete, arith, Bool-cases, inl, inr,
}
use utd_cs6v81_spring.Base.Family.{update, tally, tally-update, tally_bounded}
use utd_cs6v81_spring.Locks.Algorithm.{outside, locking, inside, unlocking, move, calling}
use utd_cs6v81_spring.Locks.Anderson.{
  Shared, read_flag, take, wait, clear, publish, read, grant, alock, alock_lock_step,
  alock_unlock_step,
}
use utd_cs6v81_spring.Locks.Anderson.Ghost.{
  AlockPhase, ticketed, taking, on_turn, past, Slotted, Inv, mod_injective,
}

ticketed-le : (p : AlockPhase) → ticketed p ≤ 1
ticketed-le p = ground arith

-- The state after a step, with its tickets.
pub record Next (n size called : ℕ) (m : Shared) (pc : ℕ → AlockPhase) : Type 0 where
  pub taken : ℕ
  pub served : ℕ
  pub ticket : ℕ → ℕ
  pub inv : Inv n size called taken served ticket m pc

module _ {n size c taken served : ℕ} {ticket : ℕ → ℕ} {m : Shared} {pc : ℕ → AlockPhase}
    (inv : Inv n size c taken served ticket m pc) (i : ℕ) (lt : i < n) where
  open inv use {
    few, small, sized, long, tail, bounded, counted, range, unique, turn, slots, lit, dark,
  }

  -- What a step to `p` does to the two counts.
  record Counts (p : AlockPhase) : Type 0 where
    tickets : tally ticketed n (update pc i p) + ticketed (pc i) ≡ tally ticketed n pc + ticketed p
    takers : tally taking n (update pc i p) + taking (pc i) ≡ tally taking n pc + taking p

  counts : (p : AlockPhase) → Counts p
  counts p = record {
    tickets = tally-update ticketed n pc i p lt;
    takers = tally-update taking n pc i p lt;
  }

  call_Inv : pc i ≡ outside → Inv n size (suc c) taken served ticket m (update pc i (locking take))
  call_Inv e =
      let k = counts (locking take) in
      record {
        few = few;
        small = small;
        sized = sized;
        long = long;
        tail = tail;
        bounded = ground (arith, k.takers);
        counted = ground (arith, k.tickets);
        range = λ j h. ground (arith, range j);
        unique = λ a b ha hb q. ground (arith, unique a b);
        turn = λ j h. ground (arith, turn j);
        slots = λ j. ground (arith, slots j);
        lit = lit;
        dark = λ j x h. ground (arith, dark j x);
      }

  -- The fetch and add.
  take-Inv :
      pc i ≡ locking take
      → c < 2 ^ 64
      → Inv n size c
          (suc taken)
          served
          (update ticket i taken)
          (record m { tail = (m.tail + 1) % 2 ^ 64 })
          (update pc i (locking (wait (m.tail % m.size))))
  take-Inv e small_c =
      let k = counts (locking (wait (m.tail % m.size))) in
      record {
        few = few;
        small = small;
        sized = sized;
        long = long;
        tail = ground (arith, k.takers);
        bounded = ground (arith, k.takers);
        counted = ground (arith, k.tickets);
        range = λ j h. ground (arith, range j, k.tickets);
        unique = λ a b ha hb q. ground (arith, unique a b, range a, range b);
        turn = λ j h. ground (arith, turn j);
        slots = λ j. ground (arith, slots j);
        lit = lit;
        dark = λ j x h. ground (arith, dark j x);
      }

  -- A step that moves only this thread, which keeps its ticket.
  stay_Inv :
      (p : AlockPhase)
      → ticketed (pc i) ≡ 1
      → ticketed p ≡ 1
      → taking p ≡ 0
      → taking (pc i) ≡ 0
      → (on_turn p ≡ 1 → ticket i ≡ served)
      → Slotted size m (ticket i) p
      → (past p ≡ 1 → past (pc i) ≡ 1)
      → Inv n size c taken served ticket m (update pc i p)
  stay_Inv p had has hasn't hadn't onp sl dk =
      let k = counts p in
      record {
        few = few;
        small = small;
        sized = sized;
        long = long;
        tail = tail;
        bounded = omega (arith, k.takers);
        counted = omega (arith, k.tickets);
        range = λ j h. ground (arith, range j);
        unique = λ a b ha hb q. ground (arith, unique a b);
        turn = λ j h. ground (arith, turn j);
        slots = λ j. ground (arith, slots j);
        lit = lit;
        dark = λ j x h. ground (arith, dark j x, dark i x);
      }

  -- The slot of a thread on its turn is the one that may be lit.
  turn_slot : (s : ℕ) → on_turn (pc i) ≡ 1 → s ≡ ticket i % size → s ≡ served % size
  turn_slot s h e = e ∙ ap (λ t. t % size) (turn i h)

  slot_fits : (t : ℕ) → t % size < length m.flag
  slot_fits t = rw long (mod-lt t (omega arith))

  cleared : (s x : ℕ) → s ≡ served % size → get_or (set m.flag s false) x false ≡ false
  cleared s x e = elim (ℕ_discrete s x) [
    | yes same ↦ rw (← same) (get_or-set_self m.flag s false false (rw e (slot_fits served)))
    | no ne ↦ rw (get_or-set_ne m.flag s x false false ne) (ground (arith, lit x))
  ]

  clear_Inv :
      (s : ℕ)
      → pc i ≡ locking (clear s)
      → Inv n size c taken served ticket
          (record m { flag = set m.flag s false })
          (update pc i (locking (publish s)))
  clear_Inv s e =
      let k = counts (locking (publish s)) in
      let mine : s ≡ served % size = turn_slot s (ground arith) (ground (arith, slots i)) in
      record {
        few = few;
        small = small;
        sized = sized;
        long = length-set m.flag s false ∙ long;
        tail = tail;
        bounded = ground (arith, k.takers);
        counted = ground (arith, k.tickets);
        range = λ j h. ground (arith, range j);
        unique = λ a b ha hb q. ground (arith, unique a b);
        turn = λ j h. ground (arith, turn j);
        slots = λ j. ground (arith, slots j);
        lit = λ x h. ground (arith, cleared s x mine);
        dark = λ j x h. cleared s x mine;
      }

  publish_Inv :
      (s : ℕ)
      → pc i ≡ locking (publish s)
      → Inv n size c taken served ticket (record m { curslot = s }) (update pc i inside)
  publish_Inv s e =
      let k = counts inside in
      record {
        few = few;
        small = small;
        sized = sized;
        long = long;
        tail = tail;
        bounded = ground (arith, k.takers);
        counted = ground (arith, k.tickets);
        range = λ j h. ground (arith, range j);
        unique = λ a b ha hb q. ground (arith, unique a b);
        turn = λ j h. ground (arith, turn j);
        slots = λ j. ground (arith, slots j, slots i, turn j, turn i, unique i j);
        lit = lit;
        dark = λ j x h. ground (arith, dark j x, dark i x);
      }

  granted :
      (s x : ℕ)
      → s ≡ (served + 1) % size
      → past (pc i) ≡ 1
      → get_or (set m.flag s true) x false ≡ true
      → x ≡ (served + 1) % size
  granted s x e h on = elim (ℕ_discrete s x) [
    | yes same ↦ sym same ∙ e
    | no ne ↦ ground (arith, dark i x, get_or-set_ne m.flag s x true false ne)
  ]

  grant_Inv :
      (s : ℕ)
      → pc i ≡ unlocking (grant s)
      → Inv n size c taken
          (served + 1)
          ticket
          (record m { flag = set m.flag s true })
          (update pc i outside)
  grant_Inv s e =
      let k = counts outside in
      let mine : ticket i ≡ served = turn i (ground arith) in
      let next : s ≡ (served + 1) % size = ground (arith, slots i) in
      record {
        few = few;
        small = small;
        sized = sized;
        long = length-set m.flag s true ∙ long;
        tail = tail;
        bounded = ground (arith, k.takers);
        counted = ground (arith, k.tickets);
        range = λ j h. ground (arith, range j, unique i j);
        unique = λ a b ha hb q. ground (arith, unique a b);
        turn = λ j h. ground (arith, turn j, unique i j);
        slots = λ j. ground (arith, slots j);
        lit = λ x h. granted s x next (ground arith) h;
        dark = λ j x h. ground (arith, turn j, unique i j);
      }

more_calls :
    {n size c d taken served : ℕ} {ticket : ℕ → ℕ} {m : Shared} {pc : ℕ → AlockPhase}
    → c ≤ d
    → Inv n size c taken served ticket m pc
    → Inv n size d taken served ticket m pc
more_calls h inv = record {
  few = few;
  small = small;
  sized = sized;
  long = long;
  tail = tail;
  bounded = omega (arith, bounded);
  counted = counted;
  range = range;
  unique = unique;
  turn = turn;
  slots = slots;
  lit = lit;
  dark = dark;
}
  where
    open inv use {
      few, small, sized, long, tail, bounded, counted, range, unique, turn, slots, lit, dark,
    }

next_slot :
    (size slot t : ℕ)
    → 0 < size
    → size < 2 ^ 32
    → slot ≡ t % size
    → (slot + 1) % 2 ^ 32 % size ≡ (t + 1) % size
next_slot size slot t pos small e =
    ap (λ k. k % size) (mod-eq_of_lt (omega (arith, mod-lt t pos)))
    ∙ ap (λ k. (k + 1) % size) e
    ∙ mod-add-mod t size 1

module _ {n size c taken served : ℕ} {ticket : ℕ → ℕ} {m : Shared} {pc : ℕ → AlockPhase}
    (inv : Inv n size c taken served ticket m pc) where
  -- A lit flag is the flag of the ticket served next.
  seen : (i s : ℕ) → pc i ≡ locking (wait s) → read_flag m s ≡ true → ticket i ≡ served
  seen i s e on =
      let r = inv.range i (ground arith) in
      let same : s ≡ ticket i % size = ground (arith, inv.slots i) in
      mod_injective size served (ticket i) r.0
        (omega
          (arith, inv.counted, inv.few, tally_bounded ticketed 1 n pc (λ j _. ticketed-le (pc j))))
        (sym (inv.lit s on) ∙ same)

  read_slot :
      (i : ℕ)
      → i < n
      → pc i ≡ unlocking read
      → Slotted size m (ticket i) (unlocking (grant ((m.curslot + 1) % 2 ^ 32 % m.size)))
  read_slot i lt e = rw inv.sized (
      next_slot size m.curslot (ticket i) (omega (arith, inv.few)) inv.small
        (ground (arith, inv.slots i)))

  pub next : (d : ℕ) → c ≤ d → Next n size d m pc
  next d h = record {
    taken = taken;
    served = served;
    ticket = ticket;
    inv = more_calls (omega arith) inv;
  }

module _ (memory : List Bool) (size n : ℕ) where
  pub move_Next :
      {c taken served : ℕ} {ticket : ℕ → ℕ} {m : Shared} {pc : ℕ → AlockPhase}
      → (inv : Inv n size c taken served ticket m pc) → (i : ℕ) → i < n
      → c < 2 ^ 64
      → (p : AlockPhase) → pc i ≡ p
      → Next n size
          (calling p + c)
          (move (alock memory size) m p).0
          (update pc i (move (alock memory size) m p).1)
  unfolding move alock_lock_step alock_unlock_step
  move_Next {taken} {served} {ticket} inv i lt small outside e =
      next (call_Inv inv i lt e) _ (omega arith)
  move_Next {taken} {served} {ticket} inv i lt small (locking take) e =
      next (take-Inv inv i lt e small) _ (omega arith)
  move_Next {m} inv i lt small (locking (wait s)) e = elim (Bool-cases (read_flag m s)) [
    | inl on ↦ rw on (
        next
          (stay_Inv inv i lt (locking (clear s)) (ground arith) refl refl (ground arith)
            (λ _. seen inv i s e on) (ground (arith, inv.slots i)) (λ h. ground arith))
          _ (omega arith))
    | inr off ↦ rw off (
        next
          (stay_Inv inv i lt (locking (wait s)) (ground arith) refl refl (ground arith)
            (λ h. ground arith) (ground (arith, inv.slots i)) (λ h. ground arith))
          _ (omega arith))
  ]
  move_Next inv i lt small (locking (clear s)) e = next (clear_Inv inv i lt s e) _ (omega arith)
  move_Next inv i lt small (locking (publish s)) e = next (publish_Inv inv i lt s e) _ (omega arith)
  move_Next inv i lt small inside e =
      next
        (stay_Inv inv i lt (unlocking read) (ground arith) refl refl (ground arith)
          (λ h. inv.turn i (ground arith)) (ground (arith, inv.slots i)) (λ h. ground arith))
        _ (omega arith)
  move_Next {m} inv i lt small (unlocking read) e =
      next
        (stay_Inv inv i lt (unlocking (grant ((m.curslot + 1) % 2 ^ 32 % m.size))) (ground arith)
          refl refl (ground arith) (λ h. inv.turn i (ground arith)) (read_slot inv i lt e)
          (λ h. ground arith))
        _ (omega arith)
  move_Next inv i lt small (unlocking (grant s)) e = next (grant_Inv inv i lt s e) _ (omega arith)
