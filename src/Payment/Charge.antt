-- ===== src/Payment/Charge.antt =====
-- What `confirm` of src/payments/payment.service.ts does once the intent is locked: its one way to
-- return, with the database that it leaves.
use payment_apis.Prelude.{
  ℕ, suc, false, ◌<◌, ◌≡◌, inl, inr, List, ◌∷◌, update, arith, ◌==◌, Bool-cases,
}
use payment_apis.Prelude.Int.{pos}
use payment_apis.Errors.{Error}
use payment_apis.Db.{
  Db, WalletRow, PaymentIntentRow, ChargeRow, LedgerEntryRow, TransactionRow, TransactionType,
  Direction, succeeded, payment_succeeded, Result, ok, err, try_update, Result-cases,
}
use payment_apis.Wallet.{has_id, add_delta, apply_delta}
use payment_apis.Ledger.{create_transaction, add_entry}
use payment_apis.Webhook.Outbox.{with_events, listeners, emit_lem}
use payment_apis.Payment.{
  PublicPaymentIntent, PublicCharge, to_public_intent, to_public_charge, charge_wallet,
  insert_charge, update_status, set_status,
}

module _ (merchant_id : ℕ) (intent : PaymentIntentRow) (wallet_id : ℕ) (db : Db) where
  abbrev pub charge_transaction : TransactionRow
  charge_transaction = record {
    id = db.uuid db.drawn;
    type = TransactionType.charge;
    created_at = db.now;
  }

  abbrev pub charge_entry : LedgerEntryRow
  charge_entry = record {
    id = db.uuid (suc db.drawn);
    transaction_id = db.uuid db.drawn;
    wallet_id = wallet_id;
    direction = Direction.credit;
    amount = intent.amount;
    currency = intent.currency;
    created_at = db.now;
  }

  abbrev pub charge_row : ChargeRow
  charge_row = record {
    id = db.uuid (suc (suc db.drawn));
    payment_intent_id = intent.id;
    merchant_id = merchant_id;
    amount = intent.amount;
    currency = intent.currency;
    transaction_id = db.uuid db.drawn;
    created_at = db.now;
  }

  -- The database after the charge and the new status, before the event is emitted.
  abbrev pub booked : List WalletRow → Db
  booked ws = record db {
    drawn = suc (suc (suc db.drawn));
    wallets = ws;
    transactions = charge_transaction ∷ db.transactions;
    ledger_entries = charge_entry ∷ db.ledger_entries;
    charges = charge_row ∷ db.charges;
    payment_intents =
        update (λ r. r.id == intent.id) (set_status db.now succeeded) db.payment_intents;
  }

  abbrev pub charged : List WalletRow → Db
  charged ws =
      with_events merchant_id "payment.succeeded"
        (payment_succeeded intent.id charge_row.id intent.amount intent.currency)
        (listeners merchant_id (booked ws)) (booked ws)

  abbrev pub charge_answer : PublicPaymentIntent × PublicCharge
  charge_answer =
      (to_public_intent (record intent { status = succeeded }), to_public_charge charge_row)

  -- `charge_wallet` throws, or it credits the wallet and leaves `charged`.
  pub charge_wallet-cases {ℓ} :
      (P : Result (PublicPaymentIntent × PublicCharge) × Db → Type ℓ)
      → ((e : Error) (s : Db) → P (err e, s))
      → ((ws : List WalletRow)
          → 0 < intent.amount
          → try_update (has_id wallet_id) (add_delta db.now (pos intent.amount)) db.wallets ≡ ok ws
          → P (ok charge_answer, charged ws))
      → P (charge_wallet merchant_id intent wallet_id db)
  unfolding charge_wallet create_transaction add_entry apply_delta insert_charge update_status
  charge_wallet-cases P refuse accept = elim (Bool-cases (intent.amount == 0)) [
    | inl none_left ↦ rw none_left (refuse _ _)
    | inr some_left ↦
        rw some_left
          (elim (Result-cases
            (try_update (has_id wallet_id) (add_delta db.now (pos intent.amount)) db.wallets)) [
              | inl (ws, e) ↦ rw e (
                  rw (emit_lem merchant_id "payment.succeeded" _ (booked ws))
                    (accept ws (ground arith) e))
              | inr (x, e) ↦ rw e (refuse x _)
            ])
  ]

  -- Where the amount is positive and the wallet has room for it, it returns.
  pub charge_wallet-ok :
      (ws : List WalletRow)
      → 0 < intent.amount
      → try_update (has_id wallet_id) (add_delta db.now (pos intent.amount)) db.wallets ≡ ok ws
      → charge_wallet merchant_id intent wallet_id db ≡ (ok charge_answer, charged ws)
  unfolding charge_wallet create_transaction add_entry apply_delta insert_charge update_status
  charge_wallet-ok ws positive e =
      let nonzero : (intent.amount == 0) ≡ false = ground arith in
      rw nonzero (rw e (rw (emit_lem merchant_id "payment.succeeded" _ (booked ws))))
