-- ===== src/Payment.antt =====
-- src/payments/payment.service.ts, with payment-intent.repository.ts and charge.repository.ts: the
-- state machine of payment intents. The counters of metrics.ts are left out.
mod Rows
pub mod Charge
pub mod Confirm
pub mod Once
pub mod Effect
pub mod Lookup
pub mod Lifecycle
pub use Rows.*
unfoldable pub use Rows.{insert, insert_charge, update_status, find_by_id, find_by_id_for_update}
use Prim.Native.String.{String}
use payment_apis.Prelude.{
  ℕ, Bool, true, false, not, Option, none, some, List, [], ◌∷◌, map, if◌then◌else◌,
}
use payment_apis.Prelude.Double.{to_string}
use payment_apis.Prelude.Int.{pos}
use payment_apis.Errors.{
  app, payment_intent_not_found, invalid_state_transition, no_wallet_for_currency,
}
use payment_apis.Db.{
  Db, PaymentIntentRow, ChargeRow, PaymentIntentStatus, requires_confirmation, succeeded, canceled,
  status_name, currency_name, TransactionType, Direction, Currency, payment_succeeded, Void, Exec,
  pure, or_throw, throw_if, with_transaction, ◌>>=◌, ◌>>◌,
}
use payment_apis.Wallet.{find_by_merchant_and_currency, apply_delta}
use payment_apis.Ledger.{create_transaction, add_entry}
use payment_apis.Webhook.{emit}

-- TRANSITIONS
unfoldable pub transitions : PaymentIntentStatus → List PaymentIntentStatus
transitions requires_confirmation = succeeded ∷ canceled ∷ []
transitions succeeded = []
transitions canceled = []

abbrev pub status_eq : PaymentIntentStatus → PaymentIntentStatus → Bool
status_eq requires_confirmation requires_confirmation = true
status_eq succeeded succeeded = true
status_eq canceled canceled = true
status_eq _ _ = false

abbrev pub includes : List PaymentIntentStatus → PaymentIntentStatus → Bool
includes [] status = false
includes (s ∷ rest) status = if status_eq s status then true else includes rest status

unfoldable pub assert_transition : PaymentIntentStatus → PaymentIntentStatus → String → Exec Void
unfolding transitions
assert_transition from to action =
    throw_if (not (includes (transitions from) to))
      (app (invalid_state_transition (status_name from) action))

-- src/payments/payment.dto.ts
pub record CreatePaymentIntentDto : Type 0 where
  pub amount : ℕ
  pub currency : Currency
  pub customer_reference : Option String

pub record PublicPaymentIntent : Type 0 where
  pub id : ℕ
  pub amount : ℕ
  pub currency : Currency
  pub status : PaymentIntentStatus
  pub customer_reference : Option String
  pub created_at : ℕ

pub record PublicCharge : Type 0 where
  pub id : ℕ
  pub payment_intent_id : ℕ
  pub amount : ℕ
  pub currency : Currency
  pub transaction_id : ℕ
  pub created_at : ℕ

unfoldable pub to_public_intent : PaymentIntentRow → PublicPaymentIntent
to_public_intent row = record {
  id = row.id;
  amount = row.amount;
  currency = row.currency;
  status = row.status;
  customer_reference = row.customer_reference;
  created_at = row.created_at;
}

pub to_public_charge : ChargeRow → PublicCharge
to_public_charge row = record {
  id = row.id;
  payment_intent_id = row.payment_intent_id;
  amount = row.amount;
  currency = row.currency;
  transaction_id = row.transaction_id;
  created_at = row.created_at;
}

-- `paymentService.create`. The driver writes the amount, a number, as its text.
unfoldable pub create : ℕ → CreatePaymentIntentDto → Exec PublicPaymentIntent
create merchant_id dto = do
  wallet ← find_by_merchant_and_currency merchant_id dto.currency
  found ← or_throw wallet (no_wallet_for_currency (currency_name dto.currency))
  row ← insert merchant_id (to_string dto.amount) dto.currency dto.customer_reference
  pure (to_public_intent row)

-- `paymentService.get` and `paymentService.list`
pub get : ℕ → ℕ → Exec PublicPaymentIntent
get merchant_id id = do
  row ← find_by_id merchant_id id
  found ← or_throw row payment_intent_not_found
  pure (to_public_intent found)

pub list : ℕ → Exec (List PublicPaymentIntent)
list merchant_id = do rows ← list_by_merchant merchant_id; pure (map to_public_intent rows)

-- What `confirm` does once the intent is locked and may be confirmed, into the wallet found.
pub charge_wallet : ℕ → PaymentIntentRow → ℕ → Exec (PublicPaymentIntent × PublicCharge)
charge_wallet merchant_id intent wallet_id = do
  transaction_id ← create_transaction TransactionType.charge
  add_entry transaction_id wallet_id Direction.credit intent.amount intent.currency
  apply_delta wallet_id (pos intent.amount)
  charge ← insert_charge intent.id merchant_id intent.amount intent.currency transaction_id
  update_status intent.id succeeded
  emit merchant_id "payment.succeeded"
      (payment_succeeded intent.id charge.id intent.amount intent.currency)
  pure (to_public_intent (record intent { status = succeeded }), to_public_charge charge)

pub confirm_body : ℕ → ℕ → Exec (PublicPaymentIntent × PublicCharge)
confirm_body merchant_id id = do
  row ← find_by_id_for_update merchant_id id
  intent ← or_throw row payment_intent_not_found
  assert_transition intent.status succeeded "confirm"
  held ← find_by_merchant_and_currency merchant_id intent.currency
  wallet ← or_throw held (no_wallet_for_currency (currency_name intent.currency))
  charge_wallet merchant_id intent wallet.id

-- `paymentService.confirm`
pub confirm : ℕ → ℕ → Exec (PublicPaymentIntent × PublicCharge)
confirm merchant_id id = with_transaction (confirm_body merchant_id id)

-- `paymentService.cancel`
unfoldable pub cancel_body : ℕ → ℕ → Exec PublicPaymentIntent
cancel_body merchant_id id = do
  row ← find_by_id_for_update merchant_id id
  intent ← or_throw row payment_intent_not_found
  assert_transition intent.status canceled "cancel"
  update_status intent.id canceled
  pure (to_public_intent (record intent { status = canceled }))

unfoldable pub cancel : ℕ → ℕ → Exec PublicPaymentIntent
cancel merchant_id id = with_transaction (cancel_body merchant_id id)
