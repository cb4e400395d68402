-- ===== src/Payment/Rows.antt =====
-- src/payments/payment-intent.repository.ts and charge.repository.ts.
use Prim.Native.String.{String}
use payment_apis.Prelude.{
  ℕ, Bool, not, ◌&&◌, Option, List, ◌∷◌, select, first, update, any, order_by, leb, ◌==◌, ◌^◌,
  if◌then◌else◌,
}
use mathlib.Core.List.{reverse}
use payment_apis.Errors.{
  DbError, db_error, check_violation, foreign_key_violation, out_of_range,
  invalid_text_representation,
}
use payment_apis.Db.{
  PaymentIntentRow, ChargeRow, PaymentIntentStatus, requires_confirmation, Currency, bigint_end,
  Void, Exec, pure, gets, modify, throw_if, gen_random_uuid, ◌>>=◌, ◌>>◌,
}

-- How a BIGINT column refuses the text of an amount that it cannot hold: from 10^21 on, `toString` writes an exponent.
unfoldable pub refused_as : ℕ → DbError
refused_as amount = if leb (10 ^ 21) amount then invalid_text_representation else out_of_range

-- `paymentIntentRepository.insert`: the BIGINT column, CHECK (amount > 0), and the reference to
-- merchants.
unfoldable pub insert : ℕ → ℕ → Currency → Option String → Exec PaymentIntentRow
insert merchant_id amount currency customer_reference = do
  throw_if (leb bigint_end amount) (db_error (refused_as amount))
  throw_if (amount == 0) (db_error check_violation)
  db ← gets (λ db. db)
  throw_if (not (any (λ m. m.id == merchant_id) db.merchants)) (db_error foreign_key_violation)
  id ← gen_random_uuid
  let row : PaymentIntentRow = record {
    id = id;
    merchant_id = merchant_id;
    amount = amount;
    currency = currency;
    status = requires_confirmation;
    customer_reference = customer_reference;
    created_at = db.now;
    updated_at = db.now;
  }
  modify (λ db. record db { payment_intents = row ∷ db.payment_intents })
  pure row

-- `WHERE id = $1 AND merchant_id = $2`
abbrev pub is_intent_of : ℕ → ℕ → PaymentIntentRow → Bool
is_intent_of merchant_id id r = (r.id == id) && (r.merchant_id == merchant_id)

unfoldable pub find_by_id : ℕ → ℕ → Exec (Option PaymentIntentRow)
find_by_id merchant_id id = gets (λ db. first (is_intent_of merchant_id id) db.payment_intents)

-- The lock of FOR UPDATE: see `find_by_id_for_update` of the wallets.
unfoldable pub find_by_id_for_update : ℕ → ℕ → Exec (Option PaymentIntentRow)
find_by_id_for_update merchant_id id =
    gets (λ db. first (is_intent_of merchant_id id) db.payment_intents)

abbrev pub set_status : ℕ → PaymentIntentStatus → PaymentIntentRow → PaymentIntentRow
set_status now status r = record r { status = status; updated_at = now }

unfoldable pub update_status : ℕ → PaymentIntentStatus → Exec Void
update_status id status = modify (λ db. record db {
  payment_intents = update (λ r. r.id == id) (set_status db.now status) db.payment_intents;
})

-- ORDER BY created_at DESC
pub list_by_merchant : ℕ → Exec (List PaymentIntentRow)
list_by_merchant merchant_id = gets (λ db.
    reverse (
      order_by (λ r. r.created_at) (select (λ r. r.merchant_id == merchant_id) db.payment_intents)))

-- `chargeRepository.insert`.
unfoldable pub insert_charge : ℕ → ℕ → ℕ → Currency → ℕ → Exec ChargeRow
insert_charge payment_intent_id merchant_id amount currency transaction_id = do
  throw_if (amount == 0) (db_error check_violation)
  db ← gets (λ db. db)
  id ← gen_random_uuid
  let row : ChargeRow = record {
    id = id;
    payment_intent_id = payment_intent_id;
    merchant_id = merchant_id;
    amount = amount;
    currency = currency;
    transaction_id = transaction_id;
    created_at = db.now;
  }
  modify (λ db. record db { charges = row ∷ db.charges })
  pure row
