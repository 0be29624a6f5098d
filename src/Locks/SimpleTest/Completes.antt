-- ===== src/Locks/SimpleTest/Completes.antt =====
-- With TASLock the threads can finish one after the other.
use utd_cs6v81_spring.Base.{
  ℕ, zero, suc, ◌+◌, ◌≤◌, ◌<◌, ◌≡◌, ◌≢◌, refl, ap, ◌∙◌, ℕ_discrete, false, List, [], ◌∷◌, ◌++◌,
  arith,
}
use utd_cs6v81_spring.Locks.Algorithm.{outside, step, move, Below}
use utd_cs6v81_spring.Locks.Spin.{tas_lock, tas_lock_step, clear_step}
use utd_cs6v81_spring.Locks.SimpleTest.{ready, target, Client, client_step, client_run}

-- Every thread is between two rounds.
pub record Calm (s : Client tas_lock) : Type 0 where
  pub free : s.lock.shared ≡ false
  pub out : (j : ℕ) → s.lock.phase j ≡ outside
  pub set_up : (j : ℕ) → (s.work j).stage ≡ ready

abbrev pub one_round : ℕ → List ℕ
one_round i = i ∷ i ∷ i ∷ i ∷ i ∷ i ∷ []

module _ (s : Client tas_lock) (c : Calm s) (i : ℕ) (more : (s.work i).rounds < target) where
  open c use {free, out, set_up}

  round_rounds : ((client_run tas_lock s (one_round i)).work i).rounds ≡ (s.work i).rounds + 1
  unfolding client_run client_step step move tas_lock_step clear_step
  round_rounds = ground (arith, out i, set_up i)

  round_others :
      (j : ℕ) → i ≢ j → ((client_run tas_lock s (one_round i)).work j).rounds ≡ (s.work j).rounds
  unfolding client_run client_step step move tas_lock_step clear_step
  round_others j ne = ground (arith, out i, set_up i)

  round-Calm : Calm (client_run tas_lock s (one_round i))
  unfolding client_run client_step step move tas_lock_step clear_step
  round-Calm = record {
    free = ground (arith, out i, set_up i);
    out = λ j. ground (arith, out i, set_up i, out j);
    set_up = λ j. ground (arith, out i, set_up i, set_up j);
  }

client_run-append :
    (s : Client tas_lock) (is js : List ℕ)
    → client_run tas_lock s (is ++ js) ≡ client_run tas_lock (client_run tas_lock s is) js
unfolding client_run
client_run-append s [] js = refl
client_run-append s (i ∷ is) js = client_run-append (client_step tas_lock s i) is js

-- `k` rounds of one thread.
pub rounds_alone : ℕ → ℕ → List ℕ
rounds_alone zero i = []
rounds_alone (suc k) i = one_round i ++ rounds_alone k i

-- All rounds of the threads below `n`, the last thread first.
pub one_by_one : ℕ → ℕ → List ℕ
one_by_one k zero = []
one_by_one k (suc n) = rounds_alone k n ++ one_by_one k n

record After (s t : Client tas_lock) (k i : ℕ) : Type 0 where
  calm : Calm t
  done : (t.work i).rounds ≡ (s.work i).rounds + k
  kept : (j : ℕ) → i ≢ j → (t.work j).rounds ≡ (s.work j).rounds

alone_After :
    (k : ℕ) (s : Client tas_lock) (i : ℕ)
    → Calm s
    → (s.work i).rounds + k ≤ target
    → After s (client_run tas_lock s (rounds_alone k i)) k i
unfolding client_run rounds_alone
alone_After zero s i c h = record { calm = c; done = omega arith; kept = λ j ne. refl }
alone_After (suc k) s i c h =
    let more : (s.work i).rounds < target = omega arith in
    let t = client_run tas_lock s (one_round i) in
    let one : (t.work i).rounds ≡ (s.work i).rounds + 1 = round_rounds s c i more in
    let rest = alone_After k t i (round-Calm s c i more) (omega (arith, one)) in
    record {
      calm = rest.calm;
      done = omega (arith, rest.done, one);
      kept = λ j ne. rest.kept j ne ∙ round_others s c i more j ne;
    }

-- Appending is kept apart, so that no schedule is ever computed.
Below_both : (n : ℕ) (is js : List ℕ) → Below n is → Below n js → Below n (is ++ js)
Below_both n [] js b c = c
Below_both n (i ∷ is) js b c = (b.0, Below_both n is js b.1 c)

Below_more : (m n : ℕ) (is : List ℕ) → m ≤ n → Below m is → Below n is
Below_more m n [] h b = tt
Below_more m n (i ∷ is) h b = (omega arith, Below_more m n is h b.1)

Below-rounds_alone : (n k i : ℕ) → i < n → Below n (rounds_alone k i)
unfolding rounds_alone
Below-rounds_alone n zero i h = tt
Below-rounds_alone n (suc k) i h =
    Below_both n (one_round i) (rounds_alone k i) (omega arith) (Below-rounds_alone n k i h)

pub Below-one_by_one : (k n : ℕ) → Below n (one_by_one k n)
unfolding one_by_one
Below-one_by_one k zero = tt
Below-one_by_one k (suc n) =
    Below_both (suc n) (rounds_alone k n) (one_by_one k n)
      (Below-rounds_alone (suc n) k n (omega arith))
      (Below_more n (suc n) (one_by_one k n) (omega arith) (Below-one_by_one k n))

pub record Finished (s t : Client tas_lock) (k n : ℕ) : Type 0 where
  pub finished : (i : ℕ) → i < n → (t.work i).rounds ≡ k
  pub others : (i : ℕ) → n ≤ i → (t.work i).rounds ≡ (s.work i).rounds

pub one_by_one-Finished :
    (k n : ℕ) (s : Client tas_lock)
    → k ≤ target
    → Calm s
    → ((i : ℕ) → i < n → (s.work i).rounds ≡ 0)
    → Finished s (client_run tas_lock s (one_by_one k n)) k n
unfolding one_by_one client_run
one_by_one-Finished k zero s small c none_yet = record {
  finished = λ i h. absurd (omega arith);
  others = λ i h. refl;
}
one_by_one-Finished k (suc n) s small c none_yet =
    let t = client_run tas_lock s (rounds_alone k n) in
    let own = alone_After k s n c (omega (arith, none_yet n (omega arith))) in
    let rest =
      one_by_one-Finished k n t small own.calm
        (λ i h. own.kept i (omega arith) ∙ none_yet i (omega arith)) in
    rw (client_run-append s (rounds_alone k n) (one_by_one k n)) (record {
      finished = λ i h. elim (ℕ_discrete i n) [
        | yes e ↦ omega (
          arith,
          rest.others i (omega arith),
          ap (λ j. (t.work j).rounds) e,
          own.done,
          none_yet n (omega arith),
        )
        | no ne ↦ rest.finished i (omega arith)
      ];
      others = λ i h. rest.others i (omega arith) ∙ own.kept i (omega arith);
    })
