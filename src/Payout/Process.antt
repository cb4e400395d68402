-- ===== src/Payout/Process.antt =====
-- `processOne` of src/payouts/payout.service.ts: what stands in a payout's way, and the three ways
-- in which it ends.
use Prim.Native.String.{String}
use payment_apis.Prelude.{
  ℕ, suc, ◌<◌, ◌≡◌, refl, inl, inr, false, not, Option, none, some, List, ◌∷◌, first, update, arith,
  ◌==◌, Bool-cases, Option-cases, if◌then◌else◌,
}
use payment_apis.Prelude.Int.{pos}
use payment_apis.Errors.{Error, plain}
use payment_apis.Db.{
  Db, WalletRow, PayoutRow, PayoutAccountRow, PayoutStatus, payout_paid, payout_failed,
  LedgerEntryRow, TransactionRow, TransactionType, Direction, Void, Result, ok, err, try_update,
  with_transaction, Result-cases,
}
use payment_apis.Db.Updates.{try_update-Updated}
use payment_apis.Wallet.{has_id, add_delta, apply_delta, find_by_id_for_update}
use payment_apis.Wallet.Deltas.{Delta, add_delta-Delta, has_id-Targets}
use payment_apis.Ledger.{create_transaction, add_entry}
use payment_apis.Webhook.Outbox.{with_events, listeners, emit_lem}
use payment_apis.Books.{IsBooked, post-Agrees, Updated-Distinct}
use payment_apis.Payout.{
  ends_with_zeros, available_account, simulate_bank_transfer, complete_payout, unless_down, pay,
  credit_back, reverse_locked, reverse_payout, mark_paid, mark_failed,
}

-- What a payout to this account fails with, if it does.
abbrev pub obstacle : Option Error → Option PayoutAccountRow → Option Error
obstacle outage none = some (plain "payout account unavailable")
obstacle outage (some account) =
    if not account.is_active
    then some (plain "payout account unavailable")
    else if ends_with_zeros account.account_number
    then some (plain "bank rejected: invalid account")
    else outage

-- The account that the payout was bound to.
abbrev pub account_of : PayoutRow → Db → Option PayoutAccountRow
account_of payout db = first (λ a. a.id == payout.payout_account_id) db.payout_accounts

module _ (payout : PayoutRow) (db : Db) where
  abbrev pub paid_row : PayoutRow → PayoutRow
  paid_row p = record p { status = PayoutStatus.paid; updated_at = db.now }

  abbrev pub marked : (PayoutRow → PayoutRow) → Db
  marked f = record db { payouts = update (λ p. p.id == payout.id) f db.payouts }

  -- The database after the payout's success.
  abbrev pub completed : Db
  completed =
      with_events payout.merchant_id "payout.paid"
        (payout_paid payout.id payout.amount payout.currency) (listeners payout.merchant_id db)
        (marked paid_row)

  pub pay-obstacle :
      (outage : Option Error) (account : Option PayoutAccountRow) (e : Error)
      → obstacle outage account ≡ some e
      → pay outage account payout db ≡ (err e, db)
  unfolding pay available_account simulate_bank_transfer unless_down
  pay-obstacle outage none e h = ground arith
  pay-obstacle none (some account) e h = ground arith
  pay-obstacle (some x) (some account) e h = ground arith

  pub pay-clear :
      (outage : Option Error) (account : Option PayoutAccountRow)
      → obstacle outage account ≡ none
      → pay outage account payout db ≡ (ok tt, completed)
  unfolding pay available_account simulate_bank_transfer unless_down complete_payout
      with_transaction mark_paid
  pay-clear outage none h = cc
  pay-clear none (some account) h = elim (Bool-cases account.is_active) [
    | inl active ↦ elim (Bool-cases (ends_with_zeros account.account_number)) [
      | inl bad ↦ absurd (ground arith)
      | inr good ↦
          rw active
            (rw good (rw (emit_lem payout.merchant_id "payout.paid" _ (marked paid_row)) refl))
    ]
    | inr idle ↦ absurd (ground arith)
  ]
  pay-clear (some x) (some account) h = absurd (ground arith)

module _ (payout : PayoutRow) (attempts : ℕ) (reason : String) (db : Db) where
  abbrev pub reversal_transaction : TransactionRow
  reversal_transaction = record {
    id = db.uuid db.drawn;
    type = TransactionType.payout_reversal;
    created_at = db.now;
  }

  abbrev pub reversal_entry : ℕ → LedgerEntryRow
  reversal_entry wallet_id = record {
    id = db.uuid (suc db.drawn);
    transaction_id = db.uuid db.drawn;
    wallet_id = wallet_id;
    direction = Direction.credit;
    amount = payout.amount;
    currency = payout.currency;
    created_at = db.now;
  }

  abbrev pub failed_row : PayoutRow → PayoutRow
  failed_row p = record p {
    status = PayoutStatus.failed;
    attempts = attempts;
    failure_reason = some reason;
    reversal_transaction_id = some (db.uuid db.drawn);
    updated_at = db.now;
  }

  -- The database before the event is emitted.
  abbrev pub reversed : ℕ → List WalletRow → Db
  reversed wallet_id ws = record db {
    drawn = suc (suc db.drawn);
    wallets = ws;
    transactions = reversal_transaction ∷ db.transactions;
    ledger_entries = reversal_entry wallet_id ∷ db.ledger_entries;
    payouts = update (λ p. p.id == payout.id) failed_row db.payouts;
  }

  abbrev pub credited : ℕ → List WalletRow → Db
  credited wallet_id ws =
      with_events payout.merchant_id "payout.failed"
        (payout_failed payout.id payout.amount payout.currency reason)
        (listeners payout.merchant_id db) (reversed wallet_id ws)

  -- `reverse_payout` throws and changes nothing, or it credits the wallet and leaves `credited`.
  pub reverse_payout-cases {ℓ} :
      (P : Result Void × Db → Type ℓ)
      → ((e : Error) → P (err e, db))
      → ((wallet : WalletRow) (ws : List WalletRow)
          → first (has_id payout.wallet_id) db.wallets ≡ some wallet
          → try_update (has_id wallet.id) (add_delta db.now (pos payout.amount)) db.wallets ≡ ok ws
          → P (ok tt, credited wallet.id ws))
      → P (reverse_payout payout attempts reason db)
  unfolding reverse_payout with_transaction find_by_id_for_update reverse_locked credit_back
      create_transaction add_entry apply_delta mark_failed
  reverse_payout-cases P refuse accept =
      elim (Option-cases (first (has_id payout.wallet_id) db.wallets)) [
        | inl gone ↦ rw gone (refuse _)
        | inr (wallet, found) ↦ rw found (elim (Bool-cases (payout.amount == 0)) [
          | inl nothing ↦ rw nothing (refuse _)
          | inr something ↦
              rw something
                (elim (Result-cases (
                  try_update (has_id wallet.id) (add_delta db.now (pos payout.amount))
                    db.wallets)) [
                      | inl (ws, e) ↦ rw e (
                          rw (emit_lem payout.merchant_id "payout.failed" _ (reversed wallet.id ws))
                            (accept wallet ws found e))
                      | inr (x, e) ↦ rw e (refuse x)
                    ])
        ])
      ]

  -- The one way to return, where nothing stands against it.
  pub reverse_payout-ok :
      (wallet : WalletRow) (ws : List WalletRow)
      → 0 < payout.amount
      → first (has_id payout.wallet_id) db.wallets ≡ some wallet
      → try_update (has_id wallet.id) (add_delta db.now (pos payout.amount)) db.wallets ≡ ok ws
      → reverse_payout payout attempts reason db ≡ (ok tt, credited wallet.id ws)
  unfolding reverse_payout with_transaction find_by_id_for_update reverse_locked credit_back
      create_transaction add_entry apply_delta mark_failed
  reverse_payout-ok wallet ws positive found e =
      let nonzero : (payout.amount == 0) ≡ false = ground arith in
      rw found (
        rw nonzero
          (rw e (rw (emit_lem payout.merchant_id "payout.failed" _ (reversed wallet.id ws)) refl)))

  pub reverse_payout-IsBooked : IsBooked db → IsBooked (reverse_payout payout attempts reason db).1
  reverse_payout-IsBooked b =
      reverse_payout-cases (λ r. IsBooked r.1) (λ e. b)
        λ wallet ws found updated.
          let u =
            try_update-Updated (has_id wallet.id) (Delta (pos payout.amount))
              (add_delta db.now (pos payout.amount)) db.wallets ws
              (add_delta-Delta db.now (pos payout.amount)) updated in
          record {
            distinct =
                Updated-Distinct (has_id wallet.id) (pos payout.amount) db.wallets ws u b.distinct;
            reconciled =
                post-Agrees (has_id wallet.id) (reversal_entry wallet.id) db.ledger_entries
                  db.wallets ws (has_id-Targets wallet.id db.wallets) u b.reconciled;
          }
