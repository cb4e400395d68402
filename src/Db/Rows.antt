-- ===== src/Db/Rows.antt =====
-- The rows of the tables in migrations/*.sql, as the repositories' interfaces read them. UUIDs are
-- numbers, which the program only compares; timestamps count microseconds.
use Prim.Native.String.{String}
use payment_apis.Prelude.{ℕ, ◌*◌, ◌^◌, Bool, true, false, Option, List}

-- src/wallets/wallet.dto.ts: SUPPORTED_CURRENCIES. Every schema admits these two only.
pub data Currency : Type 0 where
  ngn usd : Currency

abbrev pub currency_eq : Currency → Currency → Bool
currency_eq ngn ngn = true
currency_eq usd usd = true
currency_eq ngn usd = false
currency_eq usd ngn = false

-- The text that the column `currency` holds.
abbrev pub currency_name : Currency → String
currency_name ngn = "NGN"
currency_name usd = "USD"

pub record MerchantRow : Type 0 where
  pub id : ℕ
  pub email : String
  pub password_hash : String
  pub created_at : ℕ
  pub updated_at : ℕ

-- `balance` is a BIGINT with CHECK (balance >= 0), and `version` an INTEGER; what leaves their ranges, an UPDATE
-- refuses.
pub record WalletRow : Type 0 where
  pub id : ℕ
  pub merchant_id : ℕ
  pub currency : Currency
  pub balance : ℕ
  pub version : ℕ
  pub created_at : ℕ
  pub updated_at : ℕ

pub data TransactionType : Type 0 where
  deposit transfer withdrawal charge payout payout_reversal : TransactionType

pub record TransactionRow : Type 0 where
  pub id : ℕ
  pub type : TransactionType
  pub created_at : ℕ

pub data Direction : Type 0 where
  debit credit : Direction

pub record LedgerEntryRow : Type 0 where
  pub id : ℕ
  pub transaction_id : ℕ
  pub wallet_id : ℕ
  pub direction : Direction
  pub amount : ℕ
  pub currency : Currency
  pub created_at : ℕ

pub data PaymentIntentStatus : Type 0 where
  requires_confirmation succeeded canceled : PaymentIntentStatus

abbrev pub status_name : PaymentIntentStatus → String
status_name requires_confirmation = "requires_confirmation"
status_name succeeded = "succeeded"
status_name canceled = "canceled"

pub record PaymentIntentRow : Type 0 where
  pub id : ℕ
  pub merchant_id : ℕ
  pub amount : ℕ
  pub currency : Currency
  pub status : PaymentIntentStatus
  pub customer_reference : Option String
  pub created_at : ℕ
  pub updated_at : ℕ

pub record ChargeRow : Type 0 where
  pub id : ℕ
  pub payment_intent_id : ℕ
  pub merchant_id : ℕ
  pub amount : ℕ
  pub currency : Currency
  pub transaction_id : ℕ
  pub created_at : ℕ

pub record PayoutAccountRow : Type 0 where
  pub id : ℕ
  pub merchant_id : ℕ
  pub currency : Currency
  pub bank_name : String
  pub account_number : List ℕ  -- the characters of the text
  pub is_active : Bool
  pub created_at : ℕ
  pub updated_at : ℕ

pub data PayoutStatus : Type 0 where
  pending paid failed : PayoutStatus

pub record PayoutRow : Type 0 where
  pub id : ℕ
  pub merchant_id : ℕ
  pub wallet_id : ℕ
  pub payout_account_id : ℕ
  pub currency : Currency
  pub amount : ℕ
  pub status : PayoutStatus
  pub transaction_id : ℕ
  pub reversal_transaction_id : Option ℕ
  pub attempts : ℕ
  pub next_attempt_at : ℕ
  pub failure_reason : Option String
  pub created_at : ℕ
  pub updated_at : ℕ

pub record WebhookEndpointRow : Type 0 where
  pub id : ℕ
  pub merchant_id : ℕ
  pub url : String
  pub secret : String
  pub is_active : Bool
  pub created_at : ℕ

-- What the callers of `emit` pass as `data`.
pub data EventData : Type 0 where
  payment_succeeded : (payment_intent_id charge_id amount : ℕ) → Currency → EventData
  payout_paid : (payout_id amount : ℕ) → Currency → EventData
  payout_failed : (payout_id amount : ℕ) → Currency → (reason : String) → EventData

-- The statuses that migration 0008 allows; the type in webhook-event.repository.ts names three.
pub data EventStatus : Type 0 where
  pending publishing published delivered failed : EventStatus

pub record WebhookEventRow : Type 0 where
  pub id : ℕ
  pub merchant_id : ℕ
  pub endpoint_id : ℕ
  pub event_type : String
  pub payload : EventData
  pub status : EventStatus
  pub attempts : ℕ
  pub next_attempt_at : ℕ
  pub last_error : Option String
  pub created_at : ℕ
  pub updated_at : ℕ

pub data KeyStatus : Type 0 where
  in_progress completed : KeyStatus

-- `response_body` is JSONB: a text here, which stands for its JSON value.
pub record IdempotencyRow : Type 0 where
  pub id : ℕ
  pub merchant_id : ℕ
  pub key : String
  pub request_hash : String
  pub status : KeyStatus
  pub response_status : Option ℕ
  pub response_body : Option String
  pub created_at : ℕ

-- The tables, the clock of the statement's transaction (`now()`), and the UUIDs that
-- `gen_random_uuid()` will hand out: the stream is any function, of which `drawn` were taken.
pub record Db : Type 0 where
  pub now : ℕ
  pub uuid : ℕ → ℕ
  pub drawn : ℕ
  pub merchants : List MerchantRow
  pub wallets : List WalletRow
  pub transactions : List TransactionRow
  pub ledger_entries : List LedgerEntryRow
  pub payment_intents : List PaymentIntentRow
  pub charges : List ChargeRow
  pub webhook_endpoints : List WebhookEndpointRow
  pub webhook_events : List WebhookEventRow
  pub payout_accounts : List PayoutAccountRow
  pub payouts : List PayoutRow
  pub idempotency_keys : List IdempotencyRow

-- One more than the largest BIGINT.
abbrev pub bigint_end : ℕ
bigint_end = 2 ^ 63

-- One more than the largest INTEGER.
abbrev pub integer_end : ℕ
integer_end = 2 ^ 31

-- `make_interval(secs => n)`
abbrev pub make_interval : ℕ → ℕ
make_interval secs = secs * 1_000_000
