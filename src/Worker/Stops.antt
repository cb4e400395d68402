-- ===== src/Worker/Stops.antt =====
-- When the loop of Worker ends, and what it has done.
use payment_apis.Prelude.{
  ℕ, zero, suc, ◌+◌, ◌≤◌, ◌<◌, ◌≡◌, ◌∙◌, refl, subst, inl, inr, Bool, true, false, some, arith,
  Bool-cases,
}
use payment_apis.Db.{Result}
use payment_apis.Worker.{turn, main_loop}

module _ {S A : Type 0} (running : ℕ → Bool) (tick : ℕ → S → Result A × S)
    (asleep : ℕ → S → S) where
  -- The turns from the n-th on.
  abbrev pub turns : ℕ → ℕ → S → S
  turns zero n s = s
  turns (suc j) n s = turns j (suc n) (turn tick asleep n s)

  -- The loop has ended after the turns that come before the first test to fail.
  pub record Ended (fuel n : ℕ) (s : S) (k : ℕ) : Type 0 where
    pub count : ℕ
    pub early : count ≤ k
    pub stopped : running (n + count) ≡ false
    pub ran : (i : ℕ) → i < count → running (n + i) ≡ true
    pub final : main_loop running tick asleep fuel n s ≡ some (turns count n s)

  now-Ended : (fuel n k : ℕ) (s : S) → running n ≡ false → Ended (suc fuel) n s k
  unfolding main_loop
  now-Ended fuel n k s stop = record {
    count = 0;
    early = omega arith;
    stopped = subst (λ m. running m ≡ false) (omega arith) stop;
    ran = λ i h. absurd (omega arith);
    final = rw (stop, main_loop) refl;
  }

  main_loop-on :
      (fuel n : ℕ) (s : S)
      → running n ≡ true
      → main_loop running tick asleep (suc fuel) n s
        ≡ main_loop running tick asleep fuel (suc n) (turn tick asleep n s)
  unfolding main_loop
  main_loop-on fuel n s on = rw (on, main_loop) refl

  later-ran :
      (n count : ℕ)
      → running n ≡ true
      → ((i : ℕ) → i < count → running (suc n + i) ≡ true)
      → (i : ℕ) → i < suc count
      → running (n + i) ≡ true
  later-ran n count on ran zero h = subst (λ m. running m ≡ true) (omega arith) on
  later-ran n count on ran (suc i) h =
      subst (λ m. running m ≡ true) (omega arith) (ran i (omega arith))

  -- A later Ended, one turn earlier.
  next-Ended :
      (fuel n k : ℕ) (s : S)
      → running n ≡ true
      → Ended fuel (suc n) (turn tick asleep n s) k
      → Ended (suc fuel) n s (suc k)
  next-Ended fuel n k s on e = record {
    count = suc e.count;
    early = omega (arith, e.early);
    stopped = subst (λ m. running m ≡ false) (omega arith) e.stopped;
    ran = later-ran n e.count on e.ran;
    final = main_loop-on fuel n s on ∙ e.final;
  }

  pub main_loop-Ended :
      (k fuel n : ℕ) (s : S) → k < fuel → running (n + k) ≡ false → Ended fuel n s k
  main_loop-Ended k zero n s enough stop = absurd (omega arith)
  main_loop-Ended zero (suc fuel) n s enough stop =
      now-Ended fuel n zero s (subst (λ m. running m ≡ false) (omega arith) stop)
  main_loop-Ended (suc k) (suc fuel) n s enough stop = elim (Bool-cases (running n)) [
    | inr stopped ↦ now-Ended fuel n (suc k) s stopped
    | inl on ↦ next-Ended fuel n k s on (
        main_loop-Ended k fuel (suc n) (turn tick asleep n s) (omega arith)
          (subst (λ m. running m ≡ false) (omega arith) stop))
  ]

  -- What every turn keeps, the turns keep.
  pub turns-keeps {ℓ} :
      (P : S → Type ℓ)
      → ((n : ℕ) (s : S) → P s → P (turn tick asleep n s))
      → (j n : ℕ) (s : S) → P s
      → P (turns j n s)
  turns-keeps P keeps zero n s p = p
  turns-keeps P keeps (suc j) n s p = turns-keeps P keeps j (suc n) _ (keeps n s p)
