-- ===== src/Tests/Payouts.antt =====
-- The sweep of the first wallet, and payouts to the good and to the bad account.
use Prim.Native.String.{String}
use payment_apis.Prelude.{◌+◌, ◌≡◌, refl, none, some, [], ◌∷◌, length, first, true, false, arith}
use payment_apis.Prelude.Int.{◌+ℤ◌}
use payment_apis.Errors.{DbError, plain}
use payment_apis.Db.{Db, PayoutRow, PayoutStatus, ngn, ok, make_interval, with_transaction}
use payment_apis.Wallet.{has_id, add_delta, apply_delta, find_by_id_for_update}
use payment_apis.Wallet.Success.{spend_row, receive_row}
use payment_apis.Ledger.{create_transaction, add_entry}
use payment_apis.Webhook.Outbox.{listeners}
use payment_apis.Books.{IsBooked}
use payment_apis.Payout.{
  SettleableWallet, sweep_one, sweep_locked, debit_wallet, create_pending, process_one, tick,
  simulate_bank_transfer, ends_with_zeros, backoff_seconds, error_message,
}
use payment_apis.Payout.Sweep.{swept, sweep_one_once}
use payment_apis.Payout.Process.{paid_row, failed_row, reversal_entry}
use payment_apis.Payout.Outcome.{
  find_payout, process_one_pays, process_one_reverses, process_one_outage,
}
use payment_apis.Payout.Engine.{tick-IsBooked}
use payment_apis.Sample.{
  first_wallet, second_wallet, good_account, good_payout, lost_payout, sample, sample-IsBooked,
}

backoff_grows : (backoff_seconds 1 ≡ 10) × (backoff_seconds 2 ≡ 20) × (backoff_seconds 9 ≡ 300)
unfolding backoff_seconds
backoff_grows = (refl, refl, refl)

abbrev db_message : DbError → String
db_message e = "database error"

abbrev settleable : SettleableWallet
settleable = record {
  wallet_id = 11;
  merchant_id = 1;
  currency = ngn;
  balance = 500;
  account_id = 41;
}

-- The state after the sweep of the first wallet.
abbrev emptied : Db
emptied = swept first_wallet 41 sample (spend_row 1_000 500 first_wallet ∷ second_wallet ∷ [])

sweeps : sweep_one 100 settleable sample ≡ (ok true, emptied)
unfolding sweep_one with_transaction find_by_id_for_update sweep_locked debit_wallet
    create_transaction add_entry apply_delta create_pending add_delta ◌+ℤ◌
sweeps = refl

sweep_one_once_example : sweep_one 100 settleable emptied ≡ (ok false, emptied)
sweep_one_once_example = sweep_one_once 100 settleable sample emptied (omega arith) sweeps

tick-IsBooked_example : IsBooked (tick db_message (λ n s. s) (λ n. none) 100 sample).1
tick-IsBooked_example =
    tick-IsBooked db_message (λ n s. s) (λ n. none) (λ n s b. b) 100 sample sample-IsBooked

process_one_pays_example :
    let (r, after) = process_one db_message none good_payout sample in
    (r ≡ ok tt)
    × (find_payout 51 after ≡ some (paid_row good_payout sample good_payout))
    × (after.wallets ≡ sample.wallets)
    × (after.ledger_entries ≡ sample.ledger_entries)
    × (length after.webhook_events ≡ length (listeners 1 sample) + length sample.webhook_events)
unfolding ends_with_zeros
process_one_pays_example = process_one_pays db_message none good_payout good_payout sample refl refl

process_one_reverses_example :
    let (r, after) = process_one db_message none lost_payout sample in
    (r ≡ ok tt)
    × (first (has_id 12) after.wallets ≡ some (receive_row 1_000 70 second_wallet))
    × (find_payout 53 after
        ≡ some (failed_row lost_payout 3 "bank rejected: invalid account" sample lost_payout))
    × (after.ledger_entries
        ≡ reversal_entry lost_payout 3 "bank rejected: invalid account" sample 12
          ∷ sample.ledger_entries)
    × (length after.webhook_events ≡ length (listeners 2 sample) + length sample.webhook_events)
unfolding ends_with_zeros error_message
process_one_reverses_example =
    process_one_reverses db_message none lost_payout lost_payout sample refl
      (plain "bank rejected: invalid account") second_wallet refl (omega arith) (omega arith)
      ((λ e. absurd (omega arith), tt), (tt, tt)) refl (omega arith)

process_one_outage_example :
    (simulate_bank_transfer good_account sample ≡ (ok tt, sample))
    × ((p : PayoutRow) × (find_payout 51
            (process_one db_message (some (plain "connection lost")) good_payout sample).1
          ≡ some p)
        × (p.status ≡ PayoutStatus.pending)
        × (p.next_attempt_at ≡ 1_000 + make_interval (backoff_seconds 1)))
unfolding ends_with_zeros
process_one_outage_example =
    process_one_outage db_message (plain "connection lost") good_payout good_payout good_account
      sample refl refl refl refl refl (omega arith)
