-- ===== src/Payout.antt =====
-- src/payouts/payout.service.ts: the settlement engine. A sweep debits wallets into pending payouts,
-- and processing sends each to the bank, retries it, or credits it back. Other sessions commit
-- between the transactions: `others n` is what they do before the n-th one.
mod Rows
mod Accounts
pub mod Sweep
pub mod Process
pub mod Outcome
pub mod Engine
pub mod Claims
pub mod Destination
pub use Rows.*
pub use Accounts.*
unfoldable pub use Accounts.{ends_with_zeros, list_payouts}
unfoldable pub use Rows.{
  insert_account, insert_account_row, find_active_account, create_pending, find_account_by_id,
  mark_paid, mark_retry, mark_failed, claim_due, list_settleable_wallets, list_by_merchant,
}
use Prim.Native.String.{String}
use payment_apis.Prelude.{
  ℕ, suc, ◌-◌, ◌*◌, ◌^◌, min, Bool, true, false, Option, none, some, List, [], ◌∷◌, length, ltb,
  if◌then◌else◌,
}
use payment_apis.Prelude.Int.{pos, neg}
use payment_apis.Errors.{DbError, Error, app, db_error, plain, message}
use payment_apis.Db.{
  Db, WalletRow, PayoutRow, PayoutAccountRow, TransactionType, Direction, payout_paid,
  payout_failed, Void, Exec, pure, raise, modify, throw_if, recover, with_transaction, ◌>>=◌, ◌>>◌,
}
use payment_apis.Wallet.{find_by_id_for_update, apply_delta}
use payment_apis.Ledger.{create_transaction, add_entry}
use payment_apis.Webhook.{emit}

abbrev pub max_attempts : ℕ
max_attempts = 3

-- `backoffSeconds`
unfoldable pub backoff_seconds : ℕ → ℕ
backoff_seconds attempt = min (10 * 2 ^ (attempt - 1)) 300

-- The transaction of `sweep` on a wallet whose balance is worth settling.
unfoldable pub debit_wallet : WalletRow → ℕ → Exec Bool
debit_wallet wallet account_id = do
  let amount = wallet.balance
  txn_id ← create_transaction TransactionType.payout
  add_entry txn_id wallet.id Direction.debit amount wallet.currency
  apply_delta wallet.id (neg amount)
  payout ← create_pending wallet.merchant_id wallet.id account_id wallet.currency amount txn_id
  pure true

-- `if (!wallet) return false; … if (balance < MIN_PAYOUT_AMOUNT) return false;`
unfoldable pub sweep_locked : ℕ → ℕ → Option WalletRow → Exec Bool
sweep_locked min_amount account_id none = pure false
sweep_locked min_amount account_id (some wallet) =
    if ltb wallet.balance min_amount then pure false else debit_wallet wallet account_id

unfoldable pub sweep_one : ℕ → SettleableWallet → Exec Bool
sweep_one min_amount w =
    with_transaction
      do wallet ← find_by_id_for_update w.wallet_id; sweep_locked min_amount w.account_id wallet

-- The loop of `sweep`, from transaction n on; it returns how many payouts were created.
pub sweep_all : (ℕ → Db → Db) → ℕ → ℕ → List SettleableWallet → Exec ℕ
sweep_all others min_amount n [] = pure 0
sweep_all others min_amount n (w ∷ ws) = do
  modify (others n)
  did_create ← sweep_one min_amount w
  created ← sweep_all others min_amount (suc n) ws
  pure (if did_create then suc created else created)

-- `sweep`. MIN_PAYOUT_AMOUNT comes from the environment.
pub sweep : (ℕ → Db → Db) → ℕ → Option ℕ → Exec ℕ
sweep others min_amount merchant_id = do
  settleable ← list_settleable_wallets min_amount merchant_id
  sweep_all others min_amount 0 settleable

-- `simulateBankTransfer`
pub simulate_bank_transfer : PayoutAccountRow → Exec Void
simulate_bank_transfer account =
    throw_if (ends_with_zeros account.account_number) (plain "bank rejected: invalid account")

-- The account as the payout may use it: it is there, and active.
pub available_account : Option PayoutAccountRow → Exec PayoutAccountRow
available_account none = raise (plain "payout account unavailable")
available_account (some account) =
    if account.is_active then pure account else raise (plain "payout account unavailable")

-- The transaction that marks a payout paid.
pub complete_payout : PayoutRow → Exec Void
complete_payout payout = do
  mark_paid payout.id
  emit payout.merchant_id "payout.paid" (payout_paid payout.id payout.amount payout.currency)

-- An outage is an error by which the database refuses a transaction as a whole.
pub unless_down : Option Error → Exec Void → Exec Void
unless_down none body = with_transaction body
unless_down (some e) body = raise e

-- The `try` block of `processOne`.
pub pay : Option Error → Option PayoutAccountRow → PayoutRow → Exec Void
pay outage account payout = do
  usable ← available_account account
  simulate_bank_transfer usable
  unless_down outage (complete_payout payout)

-- The transaction that credits a payout back, into the wallet that it locks.
pub credit_back : PayoutRow → ℕ → String → WalletRow → Exec Void
credit_back payout attempts reason wallet = do
  rev_txn_id ← create_transaction TransactionType.payout_reversal
  add_entry rev_txn_id wallet.id Direction.credit payout.amount payout.currency
  apply_delta wallet.id (pos payout.amount)
  mark_failed payout.id attempts reason rev_txn_id
  emit payout.merchant_id "payout.failed"
      (payout_failed payout.id payout.amount payout.currency reason)

pub reverse_locked : PayoutRow → ℕ → String → Option WalletRow → Exec Void
reverse_locked payout attempts reason none = raise (plain "wallet missing for reversal")
reverse_locked payout attempts reason (some wallet) = credit_back payout attempts reason wallet

pub reverse_payout : PayoutRow → ℕ → String → Exec Void
reverse_payout payout attempts reason =
    with_transaction do
      wallet ← find_by_id_for_update payout.wallet_id
      reverse_locked payout attempts reason wallet

-- The texts of the database's own errors are a parameter.
module _ (db_message : DbError → String) where
  -- `String(err?.message ?? …)`
  unfoldable pub error_message : Error → String
  error_message (app e) = message e
  error_message (db_error e) = db_message e
  error_message (plain text) = text

  -- The `catch` block of `processOne`.
  pub on_failure : PayoutRow → Error → Exec Void
  on_failure payout e =
      let attempts = suc payout.attempts in
      if ltb attempts max_attempts
      then mark_retry payout.id attempts (backoff_seconds attempts) (error_message e)
      else reverse_payout payout attempts (error_message e)

  pub process_one : Option Error → PayoutRow → Exec Void
  process_one outage payout = do
    account ← find_account_by_id payout.payout_account_id
    recover (pay outage account payout) (on_failure payout)

  -- The loop of `processDuePayouts`, from payout n on.
  pub process_all : (ℕ → Db → Db) → (ℕ → Option Error) → ℕ → List PayoutRow → Exec Void
  process_all others outages n [] = pure tt
  process_all others outages n (payout ∷ due) = do
    modify (others n)
    process_one (outages n) payout
    process_all others outages (suc n) due

  pub process_due_payouts : (ℕ → Db → Db) → (ℕ → Option Error) → ℕ → Option ℕ → Exec ℕ
  process_due_payouts others outages limit merchant_id = do
    due ← claim_due limit 60 merchant_id
    process_all others outages 0 due
    pure (length due)

  -- `settleNow`
  pub settle_now : (ℕ → Db → Db) → (ℕ → Option Error) → ℕ → ℕ → Exec (List PublicPayout)
  settle_now others outages min_amount merchant_id = do
    created ← sweep others min_amount (some merchant_id)
    processed ← process_due_payouts others outages 100 (some merchant_id)
    list_payouts merchant_id

  -- `tick` of src/settlement-worker.ts
  pub tick : (ℕ → Db → Db) → (ℕ → Option Error) → ℕ → Exec ℕ
  tick others outages min_amount = do
    created ← sweep others min_amount none
    process_due_payouts others outages 50 none
