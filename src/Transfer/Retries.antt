-- ===== src/Transfer/Retries.antt =====
-- The retry loop of src/transfers/transfer.service.ts, attempt by attempt.
use payment_apis.Prelude.{ℕ, zero, suc, ◌+◌, ◌<◌, ◌≡◌, subst, ◌∙◌, refl, true, arith, ltb, ◌-◌}
use payment_apis.Errors.{app, concurrency_conflict}
use payment_apis.Db.{Db, Result, ok, err}
use payment_apis.Transfer.{
  CreateTransferDto, TransferResult, Others, max_retries, attempt_transfer, conclude, retry_loop,
  transfer,
}

module _ (others : ℕ → Others) (caller : ℕ) (dto : CreateTransferDto) (db : Db) where
  -- What the database is after k attempts.
  abbrev pub after_attempts : ℕ → Db
  after_attempts zero = db
  after_attempts (suc k) = (attempt_transfer (others (suc k)) caller dto (after_attempts k)).1

  -- Attempt k + 1 meets a conflict.
  abbrev pub Conflicts : ℕ → Type 0
  Conflicts k =
      (attempt_transfer (others (suc k)) caller dto (after_attempts k)).0
      ≡ err (app concurrency_conflict)

  conclude-conflict :
      (again : Db → Result TransferResult × Db) (attempt : ℕ) (r : Result TransferResult × Db)
      → r.0 ≡ err (app concurrency_conflict)
      → ltb attempt max_retries ≡ true
      → conclude again attempt r ≡ again r.1
  conclude-conflict again attempt (ok a, s) e early = absurd (ground arith)
  conclude-conflict again attempt (err x, s) e early = rw early (ground arith)

  conclude-last :
      (again : Db → Result TransferResult × Db) (r : Result TransferResult × Db)
      → r.0 ≡ err (app concurrency_conflict)
      → conclude again max_retries r ≡ (err (app concurrency_conflict), r.1)
  conclude-last again (ok a, s) e = absurd (ground arith)
  conclude-last again (err x, s) e = ground arith

  -- As long as each attempt conflicts, the loop goes on.
  goes_on :
      (k left : ℕ)
      → k + suc left ≡ max_retries
      → ((j : ℕ) → j < k → Conflicts j)
      → transfer others caller dto db
        ≡ retry_loop others (suc left) (suc k) caller dto (after_attempts k)
  unfolding transfer retry_loop
  goes_on zero left sum conflicts =
      let all : max_retries ≡ suc left = omega arith in
      subst (λ (n : ℕ). transfer others caller dto db ≡ retry_loop others n 1 caller dto db) all
        refl
  goes_on (suc k) left sum conflicts =
      goes_on k (suc left) (omega arith) (λ j h. conflicts j (omega arith))
      ∙ conclude-conflict (retry_loop others (suc left) (suc (suc k)) caller dto) (suc k)
          (attempt_transfer (others (suc k)) caller dto (after_attempts k))
          (conflicts k (omega arith)) (ground arith)

  -- A transfer whose first k attempts conflict, k less than five, and whose next attempt returns, returns
  -- what that attempt does, and leaves the database as it did.
  pub transfer_retries :
      (k : ℕ) (r : TransferResult) (after : Db)
      → k < max_retries
      → ((j : ℕ) → j < k → Conflicts j)
      → attempt_transfer (others (suc k)) caller dto (after_attempts k) ≡ (ok r, after)
      → transfer others caller dto db ≡ (ok r, after)
  unfolding retry_loop
  transfer_retries k r after early conflicts returns =
      goes_on k (4 - k) (omega arith) conflicts ∙ rw returns refl

  -- A transfer all of whose five attempts conflict throws the conflict, and leaves the database as the
  -- fifth attempt did.
  pub transfer_exhausts :
      ((j : ℕ) → j < max_retries → Conflicts j)
      → transfer others caller dto db ≡ (err (app concurrency_conflict), after_attempts max_retries)
  unfolding retry_loop
  transfer_exhausts conflicts =
      goes_on 4 0 refl (λ j h. conflicts j (omega arith))
      ∙ conclude-last (retry_loop others 0 6 caller dto)
          (attempt_transfer (others 5) caller dto (after_attempts 4)) (conflicts 4 (omega arith))
