-- ===== src/Tests/Transfers.antt =====
-- Transfers between the wallets of the sample database.
use payment_apis.Prelude.{
  ℕ, zero, suc, ◌<◌, ◌≡◌, refl, some, [], ◌∷◌, first, update, arith, ◌==◌, if◌then◌else◌,
}
use payment_apis.Prelude.Double.{to_string}
use payment_apis.Prelude.Int.{◌+ℤ◌}
use payment_apis.Errors.{db_error, check_violation}
use payment_apis.Db.{Db, WalletRow, ngn, ok, err, with_transaction}
use payment_apis.Wallet.{has_id, find_by_id, apply_delta_if_version, add_delta_bump}
use payment_apis.Wallet.Deltas.{total}
use payment_apis.Wallet.Success.{debit_row, credit_row}
use payment_apis.Wallet.Updates.{with_wallets}
use payment_apis.Ledger.{create_transaction, add_entry}
use payment_apis.Books.{IsBooked}
use payment_apis.Transfer.{
  CreateTransferDto, TransferResult, Others, validate, record_ledger, move_funds, transfer_rows,
  attempt_transfer, transfer,
}
use payment_apis.Transfer.Writes.{debit_entry, credit_entry, recorded}
use payment_apis.Transfer.Conservation.{AreHonest, transfer_rows-conserves}
use payment_apis.Transfer.Outcome.{quiet, transfer_moves_funds}
use payment_apis.Transfer.Race.{spends, missed_conflict}
use payment_apis.Transfer.Retries.{after_attempts, Conflicts, transfer_retries}
use payment_apis.Sample.{first_wallet, second_wallet, sample, sample-IsBooked}

abbrev dto : CreateTransferDto
dto = record { from_wallet_id = 11; to_wallet_id = 12; amount = 100 }

quiet-AreHonest : (n : ℕ) → AreHonest (quiet n)
quiet-AreHonest n = record { between_reads = λ s b. b; after_reads = λ s b. b }

transfer_rows-conserves_example :
    let after =
      (with_transaction (transfer_rows (some first_wallet) (some second_wallet) 1 dto) sample).1 in
    IsBooked after × (total after.wallets ≡ total sample.wallets)
transfer_rows-conserves_example =
    transfer_rows-conserves (some first_wallet) (some second_wallet) 1 dto sample (omega arith)
      sample-IsBooked

transfer_moves_funds_example :
    let (r, after) = transfer quiet 1 dto sample in
    (r
      ≡ ok (record {
        transaction_id = 100;
        from_wallet_id = 11;
        to_wallet_id = 12;
        amount = 100;
        currency = ngn;
      }))
    × (first (has_id 11) after.wallets ≡ some (debit_row 1_000 100 first_wallet))
    × (first (has_id 12) after.wallets ≡ some (credit_row 1_000 100 second_wallet))
    × (first (has_id 13) after.wallets ≡ first (has_id 13) sample.wallets)
    × (after.ledger_entries
        ≡ credit_entry first_wallet second_wallet 100 sample
          ∷ debit_entry first_wallet second_wallet 100 sample
          ∷ sample.ledger_entries)
transfer_moves_funds_example =
    transfer_moves_funds first_wallet second_wallet 1 dto sample refl refl
      (record { owned = refl; same_currency = refl; enough = omega arith })
      ((λ e. absurd (omega arith), tt), (tt, tt)) (λ e. absurd (omega arith)) (omega arith)
      (omega arith, omega arith) (omega arith) (omega arith) 13 (λ e. absurd (omega arith))
      (λ e. absurd (omega arith))

-- 450 of the 500 are gone when 100 are to be moved.
missed_conflict_example :
    (attempt_transfer (spends 11 450) 1 dto sample).0 ≡ err (db_error check_violation)
missed_conflict_example =
    missed_conflict first_wallet second_wallet 1 450 dto sample refl refl
      (record { owned = refl; same_currency = refl; enough = omega arith })
      ((λ e. absurd (omega arith), tt), (tt, tt)) (omega arith, omega arith) (omega arith)
      (omega arith)

-- Another transfer takes from the source and gives back, between the reads and the writes.
abbrev bumped : Db → Db
bumped s = record s {
  wallets = update (has_id 11) (λ w. record w { version = suc w.version }) s.wallets;
}

abbrev meddling : Others
meddling = record { before_second_read = λ s. s; before_writes = bumped }

-- That happens during the first attempt alone.
abbrev once : ℕ → Others
once n = if n == 1 then meddling else quiet n

abbrev moved_wallet : WalletRow
moved_wallet = record first_wallet { version = 1 }

abbrev second_attempt : Db
second_attempt =
    with_wallets (debit_row 1_000 100 moved_wallet ∷ credit_row 1_000 100 second_wallet ∷ [])
      (recorded moved_wallet second_wallet 100 (bumped sample))

abbrev moved_result : TransferResult
moved_result = record {
  transaction_id = 100;
  from_wallet_id = 11;
  to_wallet_id = 12;
  amount = 100;
  currency = ngn;
}

returns :
    attempt_transfer (once 2) 1 dto (after_attempts once 1 dto sample 1)
    ≡ (ok moved_result, second_attempt)
unfolding attempt_transfer find_by_id transfer_rows validate with_transaction move_funds
    record_ledger to_string create_transaction add_entry apply_delta_if_version add_delta_bump ◌+ℤ◌
returns = refl

meets_one : (j : ℕ) → j < 1 → Conflicts once 1 dto sample j
unfolding attempt_transfer find_by_id transfer_rows validate with_transaction move_funds
    record_ledger to_string create_transaction add_entry apply_delta_if_version add_delta_bump ◌+ℤ◌
meets_one zero h = refl
meets_one (suc j) h = absurd (omega arith)

transfer_retries_example : transfer once 1 dto sample ≡ (ok moved_result, second_attempt)
transfer_retries_example =
    transfer_retries once 1 dto sample 1 moved_result second_attempt (omega arith) meets_one returns

meets_five : (j : ℕ) → j < 5 → Conflicts (λ n. meddling) 1 dto sample j
unfolding attempt_transfer find_by_id transfer_rows validate with_transaction move_funds
    record_ledger to_string create_transaction add_entry apply_delta_if_version add_delta_bump ◌+ℤ◌
meets_five zero h = refl
meets_five (suc zero) h = refl
meets_five (suc (suc zero)) h = refl
meets_five (suc (suc (suc zero))) h = refl
meets_five (suc (suc (suc (suc zero)))) h = refl
meets_five (suc (suc (suc (suc (suc j))))) h = absurd (omega arith)
