-- ===== src/Exchange/Conserves.antt =====
-- What `exchange` promises its callers.
use mathlib.Core.Logic.{ite}
use utd_cs6v81_spring.Base.{ℕ, ◌+◌, ◌%◌, ◌<◌, ◌≡◌, refl, List, [], ◌∷◌, arith, ℕ_discrete}
use utd_cs6v81_spring.Base.Family.{Within, tally, tally-update, tally_const, le-tally, add-le-tally}
use utd_cs6v81_spring.Times.{Timespec}
use utd_cs6v81_spring.Exchange.{
  Pc, entering, checking, reading, offering, taking, watching, looking, withdrawing, collecting,
  clearing, returned, timed_out, move, State, start, step, run,
}
use utd_cs6v81_spring.Exchange.Steps.{owns, occupied, holds, slot_holds, IsWord, Knows, move-Kept}

-- How often the node `v` is in the slot and in the hands of the threads.
abbrev pub total : ℕ → ℕ → State → ℕ
total k v s = slot_holds v s.slot + tally (holds v) k s.pc

record Inv (k : ℕ) (s : State) : Type 0 where
  is_word : IsWord s.slot
  knows : (i : ℕ) → i < k → Knows s.slot (s.pc i)
  owner : tally owns k s.pc ≡ occupied s.slot

module _ (k : ℕ) where
  step-Inv :
      (s : State) (i : ℕ) (now : Timespec)
      → i < k
      → Inv k s
      → Inv k (step s i now) × ((v : ℕ) → total k v (step s i now) ≡ total k v s)
  unfolding step
  step-Inv s i now b inv =
      let m = move s.slot (s.pc i) now in
      let few = le-tally owns k s.pc i b in
      let kept =
        move-Kept s.slot now inv.is_word (s.pc i) (inv.knows i b) (omega (arith, few, inv.owner)) in
      (
        record {
          is_word = kept.is_word;
          knows = λ j q. elim (ℕ_discrete i j) as (λ d. Knows m.0 (ite d m.1 (s.pc j))) [
            | yes same ↦ kept.knows
            | no apart ↦
                kept.others (s.pc j)
                  (omega (arith, add-le-tally owns k s.pc i j b q apart, inv.owner)) (inv.knows j q)
          ];
          owner = omega (arith, tally-update owns k s.pc i m.1 b, kept.owner, inv.owner);
        },
        λ v. omega (arith, tally-update (holds v) k s.pc i m.1 b, kept.nodes v),
      )

  run-Inv :
      (s : State) (turns : List (ℕ × Timespec))
      → Within k turns
      → Inv k s
      → Inv k (run s turns) × ((v : ℕ) → total k v (run s turns) ≡ total k v s)
  unfolding run
  run-Inv s [] b inv = (inv, λ v. refl)
  run-Inv s ((i, now) ∷ turns) b inv =
      let (inv', one) = step-Inv s i now b.0 inv in
      let (inv'', rest) = run-Inv (step s i now) turns b.1 inv' in
      (inv'', λ v. omega (arith, one v, rest v))

  start-Inv : (offers : ℕ → ℕ) → ((i : ℕ) → i < k → offers i % 4 ≡ 0) → Inv k (start offers)
  start-Inv offers aligned = record {
    is_word = ((λ q. omega (arith, q)), λ q. refl);
    knows = aligned;
    owner = omega (arith, tally_const owns 0 k (start offers).pc (λ i b. refl));
  }

-- How many of the first `k` threads call `exchange` with the node `v`.
abbrev pub offered : ℕ → ℕ → (ℕ → ℕ) → ℕ
offered k v offers = tally (holds v) k (λ i. entering (offers i))

-- Any number of threads call `exchange` with nodes whose addresses are multiples of 4, and their
-- accesses are interleaved in any way: at every moment each node is as often in the slot and with the
-- threads as they have offered it, so none is lost and none is doubled.
pub exchange_conserves :
    (k : ℕ) (offers : ℕ → ℕ) (turns : List (ℕ × Timespec)) (v : ℕ)
    → ((i : ℕ) → i < k → offers i % 4 ≡ 0)
    → Within k turns
    → total k v (run (start offers) turns) ≡ offered k v offers
exchange_conserves k offers turns v aligned b =
    omega (arith, (run-Inv k (start offers) turns b (start-Inv k offers aligned)).1 v)

-- The node that a finished call gives: the one returned, or its own on a TimeoutException.
abbrev pub Finished : Pc → Type 0
Finished (returned item) = Unit
Finished (timed_out n) = Unit
Finished p = ⊥

Finished-owns : (p : Pc) → Finished p → owns p ≡ 0
Finished-owns (returned item) f = refl
Finished-owns (timed_out n) f = refl
Finished-owns (entering n) f = elim f [ ]
Finished-owns (checking n bound) f = elim f [ ]
Finished-owns (reading n bound current) f = elim f [ ]
Finished-owns (offering n bound current item) f = elim f [ ]
Finished-owns (taking n bound item) f = elim f [ ]
Finished-owns (watching n bound) f = elim f [ ]
Finished-owns (looking n bound current) f = elim f [ ]
Finished-owns (withdrawing n) f = elim f [ ]
Finished-owns (collecting n) f = elim f [ ]
Finished-owns (clearing item) f = elim f [ ]

-- When all these calls have ended, each with a node returned or with a TimeoutException, the slot
-- is EMPTY again, and each node is as often returned, or kept by a call that timed out, as it was
-- offered.
pub exchange_permutes :
    (k : ℕ) (offers : ℕ → ℕ) (turns : List (ℕ × Timespec)) (v : ℕ)
    → ((i : ℕ) → i < k → offers i % 4 ≡ 0)
    → Within k turns
    → ((i : ℕ) → i < k → Finished ((run (start offers) turns).pc i))
    → let s = run (start offers) turns in
      (s.slot ≡ 0) × (tally (holds v) k s.pc ≡ offered k v offers)
exchange_permutes k offers turns v aligned b done =
    let s = run (start offers) turns in
    let (inv, same) = run-Inv k (start offers) turns b (start-Inv k offers aligned) in
    let owned = tally_const owns 0 k s.pc (λ i q. Finished-owns (s.pc i) (done i q)) in
    let vacant : s.slot ≡ 0 = ground (arith, inv.owner, owned) in
    (vacant, ground (arith, same v, vacant))
