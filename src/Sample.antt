-- ===== src/Sample.antt =====
-- A small database on which the tests and the witnesses run: two merchants, each with a wallet.
use Prim.Native.String.{String}
use payment_apis.Prelude.{ℕ, ◌+◌, true, none, List, [], ◌∷◌, refl, arith}
use payment_apis.Prelude.Int.{◌+ℤ◌}
use payment_apis.Db.{
  Db, MerchantRow, WalletRow, LedgerEntryRow, PaymentIntentRow, PayoutAccountRow, PayoutRow,
  PayoutStatus, WebhookEndpointRow, WebhookEventRow, EventStatus, Currency, ngn, usd, Direction,
  requires_confirmation, payment_succeeded,
}
use payment_apis.Books.{IsBooked, net}

abbrev merchant : ℕ → String → MerchantRow
merchant id email = record {
  id = id;
  email = email;
  password_hash = "";
  created_at = 0;
  updated_at = 0;
}

abbrev pub first_merchant : MerchantRow
first_merchant = merchant 1 "one@example.com"

abbrev wallet : ℕ → ℕ → ℕ → WalletRow
wallet id merchant_id balance = record {
  id = id;
  merchant_id = merchant_id;
  currency = ngn;
  balance = balance;
  version = 0;
  created_at = 0;
  updated_at = 0;
}

abbrev pub first_wallet : WalletRow
first_wallet = wallet 11 1 500

abbrev pub second_wallet : WalletRow
second_wallet = wallet 12 2 200

abbrev pub deposit : ℕ → ℕ → ℕ → LedgerEntryRow
deposit id wallet_id amount = record {
  id = id;
  transaction_id = 1;
  wallet_id = wallet_id;
  direction = Direction.credit;
  amount = amount;
  currency = ngn;
  created_at = 0;
}

abbrev intent : ℕ → Currency → PaymentIntentRow
intent id currency = record {
  id = id;
  merchant_id = 1;
  amount = 100;
  currency = currency;
  status = requires_confirmation;
  customer_reference = none;
  created_at = 0;
  updated_at = 0;
}

-- The first merchant has a wallet for this one, and none for the other.
abbrev pub waiting : PaymentIntentRow
waiting = intent 21 ngn

abbrev pub homeless : PaymentIntentRow
homeless = intent 22 usd

abbrev pub endpoint : WebhookEndpointRow
endpoint = record {
  id = 31;
  merchant_id = 1;
  url = "https://example.com/hook";
  secret = "whsec";
  is_active = true;
  created_at = 0;
}

abbrev account : ℕ → ℕ → List ℕ → PayoutAccountRow
account id merchant_id account_number = record {
  id = id;
  merchant_id = merchant_id;
  currency = ngn;
  bank_name = "Bank";
  account_number = account_number;
  is_active = true;
  created_at = 0;
  updated_at = 0;
}

abbrev pub good_account : PayoutAccountRow
good_account = account 41 1 (b'1' ∷ b'2' ∷ b'3' ∷ b'4' ∷ b'5' ∷ [])

abbrev pub bad_account : PayoutAccountRow
bad_account = account 42 2 (b'1' ∷ b'0' ∷ b'0' ∷ b'0' ∷ b'0' ∷ [])

abbrev payout : ℕ → ℕ → ℕ → ℕ → ℕ → PayoutRow
payout id merchant_id wallet_id payout_account_id attempts = record {
  id = id;
  merchant_id = merchant_id;
  wallet_id = wallet_id;
  payout_account_id = payout_account_id;
  currency = ngn;
  amount = 70;
  status = PayoutStatus.pending;
  transaction_id = 1;
  reversal_transaction_id = none;
  attempts = attempts;
  next_attempt_at = 0;
  failure_reason = none;
  created_at = 0;
  updated_at = 0;
}

abbrev pub good_payout : PayoutRow
good_payout = payout 51 1 11 41 0

abbrev pub bad_payout : PayoutRow
bad_payout = payout 52 2 12 42 0

-- On its last attempt.
abbrev pub lost_payout : PayoutRow
lost_payout = payout 53 2 12 42 2

abbrev pub event : WebhookEventRow
event = record {
  id = 61;
  merchant_id = 1;
  endpoint_id = 31;
  event_type = "payment.succeeded";
  payload = payment_succeeded 20 1 10 ngn;
  status = EventStatus.pending;
  attempts = 3;
  next_attempt_at = 0;
  last_error = none;
  created_at = 0;
  updated_at = 0;
}

abbrev pub sample : Db
sample = record {
  now = 1_000;
  uuid = λ n. 100 + n;
  drawn = 0;
  merchants = first_merchant ∷ merchant 2 "two@example.com" ∷ [];
  wallets = first_wallet ∷ second_wallet ∷ [];
  transactions = [];
  ledger_entries = deposit 2 11 500 ∷ deposit 3 12 200 ∷ [];
  payment_intents = waiting ∷ homeless ∷ [];
  charges = [];
  webhook_endpoints = endpoint ∷ [];
  webhook_events = event ∷ [];
  payout_accounts = good_account ∷ bad_account ∷ [];
  payouts = good_payout ∷ bad_payout ∷ lost_payout ∷ [];
  idempotency_keys = [];
}

-- Its books are in agreement.
pub sample-IsBooked : IsBooked sample
unfolding net ◌+ℤ◌
sample-IsBooked = record {
  distinct = ((λ e. absurd (omega arith), tt), (tt, tt));
  reconciled = (refl, (refl, tt));
}
