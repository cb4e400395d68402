-- ===== src/Payment/Confirm.antt =====
-- `confirm` and `cancel` of src/payments/payment.service.ts: the decision, the effect and the
-- books.
use Prim.Native.String.{String}
use payment_apis.Prelude.{
  ℕ, ◌≡◌, refl, ◌⊎◌, inl, inr, Option, none, some, List, update, first, arith, ◌==◌, Option-cases,
}
use payment_apis.Prelude.Int.{pos}
use payment_apis.Errors.{
  AppError, Error, app, payment_intent_not_found, invalid_state_transition, no_wallet_for_currency,
}
use payment_apis.Db.{
  Db, WalletRow, PaymentIntentRow, PaymentIntentStatus, requires_confirmation, succeeded, canceled,
  currency_name, Result, ok, err, with_transaction, try_update, settle,
}
use payment_apis.Db.Updates.{try_update-Updated}
use payment_apis.Wallet.{has_id, is_held_by, add_delta, find_by_merchant_and_currency}
use payment_apis.Wallet.Deltas.{Delta, add_delta-Delta, has_id-Targets}
use payment_apis.Books.{IsBooked, post-Agrees, Updated-Distinct}
use payment_apis.Payment.{
  PublicPaymentIntent, PublicCharge, to_public_intent, assert_transition, charge_wallet,
  confirm_body, confirm, cancel_body, cancel, is_intent_of, find_by_id_for_update, update_status,
  set_status,
}
use payment_apis.Payment.Charge.{charge_entry, charged, charge_answer, charge_wallet-cases}

-- Why a transition is refused, by what the intent and the wallet are: the first reason that applies.
abbrev pub intent_refusal : PaymentIntentStatus → Option AppError → String → Option AppError
intent_refusal requires_confirmation later action = later
intent_refusal succeeded later action = some (invalid_state_transition "succeeded" action)
intent_refusal canceled later action = some (invalid_state_transition "canceled" action)

abbrev pub wallet_refusal : PaymentIntentRow → Option WalletRow → Option AppError
wallet_refusal intent none = some (no_wallet_for_currency (currency_name intent.currency))
wallet_refusal intent (some w) = none

abbrev pub confirm_refusal :
    Option PaymentIntentRow → (PaymentIntentRow → Option WalletRow) → Option AppError
confirm_refusal none wallet = some payment_intent_not_found
confirm_refusal (some intent) wallet =
    intent_refusal intent.status (wallet_refusal intent (wallet intent)) "confirm"

abbrev pub cancel_refusal : Option PaymentIntentRow → Option AppError
cancel_refusal none = some payment_intent_not_found
cancel_refusal (some intent) = intent_refusal intent.status none "cancel"

abbrev pub intent_of : ℕ → ℕ → Db → Option PaymentIntentRow
intent_of merchant_id id db = first (is_intent_of merchant_id id) db.payment_intents

abbrev pub wallet_for : ℕ → Db → PaymentIntentRow → Option WalletRow
wallet_for merchant_id db intent = first (is_held_by merchant_id intent.currency) db.wallets

status-cases :
    (s : PaymentIntentStatus) → (s ≡ requires_confirmation) ⊎ ((s ≡ succeeded) ⊎ (s ≡ canceled))
status-cases requires_confirmation = inl refl
status-cases succeeded = inr (inl refl)
status-cases canceled = inr (inr refl)

abbrev pub with_status : ℕ → PaymentIntentStatus → Db → Db
with_status id status db = record db {
  payment_intents = update (λ r. r.id == id) (set_status db.now status) db.payment_intents;
}

module _ (merchant_id id : ℕ) (db : Db) where
  -- `confirm_body` throws the refusal, or it charges the wallet found.
  confirm_body-cases {ℓ} :
      (P : Result (PublicPaymentIntent × PublicCharge) × Db → Type ℓ)
      → ((e : AppError)
          → confirm_refusal (intent_of merchant_id id db) (wallet_for merchant_id db) ≡ some e
          → P (err (app e), db))
      → ((intent : PaymentIntentRow) (w : WalletRow)
          → intent_of merchant_id id db ≡ some intent
          → intent.status ≡ requires_confirmation
          → wallet_for merchant_id db intent ≡ some w
          → P (charge_wallet merchant_id intent w.id db))
      → P (confirm_body merchant_id id db)
  unfolding confirm_body find_by_id_for_update find_by_merchant_and_currency assert_transition
  confirm_body-cases P refuse accept = elim (Option-cases (intent_of merchant_id id db)) [
    | inl gone ↦ rw gone (refuse payment_intent_not_found (rw gone))
    | inr (intent, e) ↦ rw e (elim (status-cases intent.status) [
      | inl ready ↦ simp ready (elim (Option-cases (wallet_for merchant_id db intent)) [
        | inl lost ↦ rw lost (
            refuse (no_wallet_for_currency (currency_name intent.currency))
              (rw e (simp (ready, lost))))
        | inr (w, f) ↦ rw f (accept intent w e ready f)
      ])
      | inr (inl done) ↦
          simp done (refuse (invalid_state_transition "succeeded" "confirm") (rw e (simp done)))
      | inr (inr done) ↦
          simp done (refuse (invalid_state_transition "canceled" "confirm") (rw e (simp done)))
    ])
  ]

  -- `cancel_body` throws the refusal, or it sets the status.
  cancel_body-cases {ℓ} :
      (P : Result PublicPaymentIntent × Db → Type ℓ)
      → ((e : AppError)
          → cancel_refusal (intent_of merchant_id id db) ≡ some e
          → P (err (app e), db))
      → ((intent : PaymentIntentRow)
          → intent_of merchant_id id db ≡ some intent
          → intent.status ≡ requires_confirmation
          → P (
            ok (to_public_intent (record intent { status = canceled })),
            with_status intent.id canceled db,
          ))
      → P (cancel_body merchant_id id db)
  unfolding cancel_body find_by_id_for_update assert_transition update_status
  cancel_body-cases P refuse accept = elim (Option-cases (intent_of merchant_id id db)) [
    | inl gone ↦ rw gone (refuse payment_intent_not_found (rw gone))
    | inr (intent, e) ↦ rw e (elim (status-cases intent.status) [
      | inl ready ↦ simp ready (accept intent e ready)
      | inr (inl done) ↦
          simp done (refuse (invalid_state_transition "succeeded" "cancel") (rw e (simp done)))
      | inr (inr done) ↦
          simp done (refuse (invalid_state_transition "canceled" "cancel") (rw e (simp done)))
    ])
  ]

  -- An error that the intent or its wallet gives cause for is the one that a confirmation throws:
  -- not found before a settled status before no wallet. Nothing is changed.
  pub confirm_refused :
      (e : AppError)
      → confirm_refusal (intent_of merchant_id id db) (wallet_for merchant_id db) ≡ some e
      → confirm merchant_id id db ≡ (err (app e), db)
  unfolding confirm with_transaction
  confirm_refused e h =
      confirm_body-cases (λ r. settle db r ≡ (err (app e), db)) (λ x same. ground arith)
        (λ intent w found ready held. absurd (ground arith))

  -- `confirm` throws and changes nothing, or it charges a wallet for an intent that waits.
  pub confirm-cases {ℓ} :
      (P : Result (PublicPaymentIntent × PublicCharge) × Db → Type ℓ)
      → ((e : Error) → P (err e, db))
      → ((intent : PaymentIntentRow) (w : WalletRow) (ws : List WalletRow)
          → intent_of merchant_id id db ≡ some intent
          → intent.status ≡ requires_confirmation
          → wallet_for merchant_id db intent ≡ some w
          → try_update (has_id w.id) (add_delta db.now (pos intent.amount)) db.wallets ≡ ok ws
          → P (
            ok (charge_answer merchant_id intent w.id db),
            charged merchant_id intent w.id db ws,
          ))
      → P (confirm merchant_id id db)
  unfolding confirm with_transaction
  confirm-cases P refuse accept =
      confirm_body-cases (λ r. P (settle db r)) (λ e h. refuse (app e))
        (λ intent w found ready held.
          charge_wallet-cases merchant_id intent w.id db (λ r. P (settle db r)) (λ e s. refuse e)
            (λ ws positive updated. accept intent w ws found ready held updated))

  pub cancel-cases {ℓ} :
      (P : Result PublicPaymentIntent × Db → Type ℓ)
      → ((e : Error) → P (err e, db))
      → ((intent : PaymentIntentRow)
          → intent_of merchant_id id db ≡ some intent
          → intent.status ≡ requires_confirmation
          → P (
            ok (to_public_intent (record intent { status = canceled })),
            with_status intent.id canceled db,
          ))
      → P (cancel merchant_id id db)
  unfolding cancel with_transaction
  cancel-cases P refuse accept =
      cancel_body-cases (λ r. P (settle db r)) (λ e h. refuse (app e)) accept

  -- An error that the intent gives cause for is the one that a cancellation throws: not found
  -- before a settled status. Nothing is changed.
  pub cancel_refused :
      (e : AppError)
      → cancel_refusal (intent_of merchant_id id db) ≡ some e
      → cancel merchant_id id db ≡ (err (app e), db)
  unfolding cancel with_transaction
  cancel_refused e h =
      cancel_body-cases (λ r. settle db r ≡ (err (app e), db)) (λ x same. ground arith)
        (λ intent found ready. absurd (ground arith))

  -- Confirming a payment intent keeps the books, however it ends.
  pub confirm-IsBooked : IsBooked db → IsBooked (confirm merchant_id id db).1
  confirm-IsBooked b =
      confirm-cases (λ r. IsBooked r.1) (λ e. b)
        λ intent w ws found ready held updated.
          let u =
            try_update-Updated (has_id w.id) (Delta (pos intent.amount))
              (add_delta db.now (pos intent.amount)) db.wallets ws
              (add_delta-Delta db.now (pos intent.amount)) updated in
          record {
            distinct =
                Updated-Distinct (has_id w.id) (pos intent.amount) db.wallets ws u b.distinct;
            reconciled =
                post-Agrees (has_id w.id) (charge_entry merchant_id intent w.id db)
                  db.ledger_entries db.wallets ws (has_id-Targets w.id db.wallets) u b.reconciled;
          }
