-- ===== src/Payment/Effect.antt =====
-- A confirmation that nothing stands against: what it returns and what it leaves.
use payment_apis.Prelude.{ℕ, ◌+◌, ◌<◌, ◌≡◌, refl, some, List, ◌∷◌, length, first, update, Distinct}
use payment_apis.Db.{
  Db, WalletRow, PaymentIntentRow, requires_confirmation, succeeded, bigint_end, ok,
  with_transaction,
}
use payment_apis.Wallet.{has_id, find_by_merchant_and_currency}
use payment_apis.Wallet.Deltas.{ids}
use payment_apis.Wallet.Success.{receive_row, try_update-receive, first-received}
use payment_apis.Webhook.Outbox.{listeners, length-fan_out}
use payment_apis.Payment.{
  confirm_body, confirm, assert_transition, charge_wallet, find_by_id_for_update, set_status,
}
use payment_apis.Payment.Charge.{charge_entry, charge_row, charge_answer, charged, charge_wallet-ok}
use payment_apis.Payment.Confirm.{intent_of, wallet_for}
use payment_apis.Payment.Once.{first-set_status}

module _ (merchant_id id : ℕ) (db : Db) (intent : PaymentIntentRow) (w : WalletRow)
    (found : intent_of merchant_id id db ≡ some intent)
    (ready : intent.status ≡ requires_confirmation)
    (held : wallet_for merchant_id db intent ≡ some w)
    (itself : first (has_id w.id) db.wallets ≡ some w) (distinct : Distinct (ids db.wallets))
    (positive : 0 < intent.amount) (room : w.balance + intent.amount < bigint_end) where
  -- The wallets after the credit.
  abbrev pub received : List WalletRow
  received = update (has_id w.id) (receive_row db.now intent.amount) db.wallets

  confirm-charge : confirm_body merchant_id id db ≡ charge_wallet merchant_id intent w.id db
  unfolding confirm_body find_by_id_for_update find_by_merchant_and_currency assert_transition
  confirm-charge = rw found (simp ready (rw held))

  pub confirm-ok :
      confirm merchant_id id db
      ≡ (ok (charge_answer merchant_id intent w.id db), charged merchant_id intent w.id db received)
  unfolding confirm with_transaction
  confirm-ok = rw confirm-charge (
      rw (
        charge_wallet-ok merchant_id intent w.id db received positive
          (try_update-receive db.now intent.amount w w.id db.wallets distinct itself room)))

  -- Confirming a waiting intent of a positive amount, whose merchant has a wallet in its currency
  -- that its id finds too and that has room for the amount, returns, where wallet ids are
  -- distinct: the wallet has the amount more, the intent is succeeded, the ledger has one credit
  -- and the charges one row more, and the outbox has one event more for each active endpoint of
  -- the merchant.
  pub confirm_pays :
      let (r, after) = confirm merchant_id id db in
      (r ≡ ok (charge_answer merchant_id intent w.id db))
      × (first (has_id w.id) after.wallets ≡ some (receive_row db.now intent.amount w))
      × (intent_of merchant_id id after ≡ some (set_status db.now succeeded intent))
      × (after.ledger_entries ≡ charge_entry merchant_id intent w.id db ∷ db.ledger_entries)
      × (after.charges ≡ charge_row merchant_id intent w.id db ∷ db.charges)
      × (length after.webhook_events ≡ length (listeners merchant_id db) + length db.webhook_events)
  confirm_pays = rw confirm-ok (
    refl,
    first-received w.id db.now intent.amount w db.wallets itself,
    first-set_status merchant_id id db.now intent succeeded db.payment_intents found,
    refl,
    refl,
    length-fan_out merchant_id "payment.succeeded" _ db.uuid db.now _ (listeners merchant_id db)
        db.webhook_events,
  )
