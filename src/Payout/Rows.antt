-- ===== src/Payout/Rows.antt =====
-- src/payouts/payout.repository.ts and payout-account.repository.ts. No other session holds row locks
-- while `claim_due` runs, so SKIP LOCKED skips nothing.
use mathlib.Core.List.{reverse}
use Prim.Native.String.{String}
use payment_apis.Prelude.{
  ℕ, ◌+◌, Bool, true, false, not, ◌&&◌, Option, none, some, List, [], ◌∷◌, ◌++◌, map, take, select,
  first, update, any, order_by, leb, ◌==◌, if◌then◌else◌,
}
use payment_apis.Errors.{
  AppError, db_error, unique_violation, check_violation, foreign_key_violation,
}
use payment_apis.Db.{
  Db, WalletRow, PayoutRow, PayoutAccountRow, PayoutStatus, Currency, currency_eq, currency_name,
  make_interval, Void, Exec, pure, gets, modify, throw_if, catch, on_unique, gen_random_uuid, ◌>>=◌,
  ◌>>◌,
}

-- `WHERE merchant_id = $1 AND currency = $2` on payout_accounts
abbrev pub is_account_of : ℕ → Currency → PayoutAccountRow → Bool
is_account_of merchant_id currency a =
    (a.merchant_id == merchant_id) && currency_eq a.currency currency

-- The INSERT of `payoutAccountRepository.insert`: UNIQUE (merchant_id, currency), and the reference
-- to merchants.
unfoldable pub insert_account_row : ℕ → Currency → String → List ℕ → Exec PayoutAccountRow
insert_account_row merchant_id currency bank_name account_number = do
  db ← gets (λ db. db)
  throw_if (any (is_account_of merchant_id currency) db.payout_accounts) (db_error unique_violation)
  throw_if (not (any (λ m. m.id == merchant_id) db.merchants)) (db_error foreign_key_violation)
  id ← gen_random_uuid
  let row : PayoutAccountRow = record {
    id = id;
    merchant_id = merchant_id;
    currency = currency;
    bank_name = bank_name;
    account_number = account_number;
    is_active = true;
    created_at = db.now;
    updated_at = db.now;
  }
  modify (λ db. record db { payout_accounts = row ∷ db.payout_accounts })
  pure row

unfoldable pub insert_account : ℕ → Currency → String → List ℕ → Exec PayoutAccountRow
unfolding insert_account_row
insert_account merchant_id currency bank_name account_number =
    catch (insert_account_row merchant_id currency bank_name account_number)
      (on_unique (AppError.wallet_already_exists (currency_name currency)))

pub list_accounts_by_merchant : ℕ → Exec (List PayoutAccountRow)
list_accounts_by_merchant merchant_id = gets (λ db.
    order_by (λ a. a.created_at) (select (λ a. a.merchant_id == merchant_id) db.payout_accounts))

-- `payoutAccountRepository.findActive`
unfoldable pub find_active_account : ℕ → Currency → Exec (Option PayoutAccountRow)
find_active_account merchant_id currency =
    gets (λ db. first (λ a. is_account_of merchant_id currency a && a.is_active) db.payout_accounts)

-- `payoutAccountRepository.findById`
unfoldable pub find_account_by_id : ℕ → Exec (Option PayoutAccountRow)
find_account_by_id id = gets (λ db. first (λ a. a.id == id) db.payout_accounts)

pub record SettleableWallet : Type 0 where
  pub wallet_id : ℕ
  pub merchant_id : ℕ
  pub currency : Currency
  pub balance : ℕ
  pub account_id : ℕ

-- `if (merchantId) where += " AND merchant_id = …"`
abbrev pub in_scope : Option ℕ → ℕ → Bool
in_scope none merchant_id = true
in_scope (some m) merchant_id = merchant_id == m

-- The join: one row for each wallet and each active account that fits it.
abbrev join_accounts : WalletRow → List PayoutAccountRow → List SettleableWallet
join_accounts w [] = []
join_accounts w (a ∷ accounts) =
    if is_account_of w.merchant_id w.currency a && a.is_active
    then record {
      wallet_id = w.id;
      merchant_id = w.merchant_id;
      currency = w.currency;
      balance = w.balance;
      account_id = a.id;
    }
      ∷ join_accounts w accounts
    else join_accounts w accounts

abbrev pub join_wallets : List WalletRow → List PayoutAccountRow → List SettleableWallet
join_wallets [] accounts = []
join_wallets (w ∷ ws) accounts = join_accounts w accounts ++ join_wallets ws accounts

unfoldable pub list_settleable_wallets : ℕ → Option ℕ → Exec (List SettleableWallet)
list_settleable_wallets min_amount merchant_id = gets (λ db.
    join_wallets
      (select (λ w. leb min_amount w.balance && in_scope merchant_id w.merchant_id) db.wallets)
      db.payout_accounts)

-- CHECK (amount > 0)
unfoldable pub create_pending : ℕ → ℕ → ℕ → Currency → ℕ → ℕ → Exec PayoutRow
create_pending merchant_id wallet_id payout_account_id currency amount transaction_id = do
  throw_if (amount == 0) (db_error check_violation)
  db ← gets (λ db. db)
  id ← gen_random_uuid
  let row : PayoutRow = record {
    id = id;
    merchant_id = merchant_id;
    wallet_id = wallet_id;
    payout_account_id = payout_account_id;
    currency = currency;
    amount = amount;
    status = PayoutStatus.pending;
    transaction_id = transaction_id;
    reversal_transaction_id = none;
    attempts = 0;
    next_attempt_at = db.now;
    failure_reason = none;
    created_at = db.now;
    updated_at = db.now;
  }
  modify (λ db. record db { payouts = row ∷ db.payouts })
  pure row

abbrev pub is_pending : PayoutStatus → Bool
is_pending PayoutStatus.pending = true
is_pending PayoutStatus.paid = false
is_pending PayoutStatus.failed = false

-- `WHERE status = 'pending' AND next_attempt_at <= now()`, in the merchant's scope
abbrev pub is_due : ℕ → Option ℕ → PayoutRow → Bool
is_due now merchant_id p =
    is_pending p.status && (leb p.next_attempt_at now && in_scope merchant_id p.merchant_id)

-- The ids that the subquery of `claimDue` selects.
abbrev pub due_ids : ℕ → ℕ → Option ℕ → List PayoutRow → List ℕ
due_ids now limit merchant_id payouts =
    map (λ p. p.id)
      (take limit (order_by (λ p. p.next_attempt_at) (select (is_due now merchant_id) payouts)))

abbrev pub is_among : List ℕ → ℕ → Bool
is_among ids id = any (λ j. j == id) ids

abbrev pub lease : ℕ → ℕ → PayoutRow → PayoutRow
lease now lease_seconds p = record p {
  next_attempt_at = now + make_interval lease_seconds;
  updated_at = now;
}

unfoldable pub claim_due : ℕ → ℕ → Option ℕ → Exec (List PayoutRow)
claim_due limit lease_seconds merchant_id = do
  db ← gets (λ db. db)
  let ids = due_ids db.now limit merchant_id db.payouts
  modify (λ db. record db {
    payouts = update (λ p. is_among ids p.id) (lease db.now lease_seconds) db.payouts;
  })
  gets (λ db. select (λ p. is_among ids p.id) db.payouts)

abbrev set_row : ℕ → (PayoutRow → PayoutRow) → Db → Db
set_row id f db = record db { payouts = update (λ p. p.id == id) f db.payouts }

unfoldable pub mark_paid : ℕ → Exec Void
mark_paid id =
    modify (λ db. set_row id (λ p. record p { status = PayoutStatus.paid; updated_at = db.now }) db)

unfoldable pub mark_retry : ℕ → ℕ → ℕ → String → Exec Void
mark_retry id attempts backoff_seconds error = modify (λ db.
    set_row id
      (λ p. record p {
        attempts = attempts;
        next_attempt_at = db.now + make_interval backoff_seconds;
        failure_reason = some error;
        updated_at = db.now;
      })
      db)

unfoldable pub mark_failed : ℕ → ℕ → String → ℕ → Exec Void
mark_failed id attempts error reversal_transaction_id = modify (λ db.
    set_row id
      (λ p. record p {
        status = PayoutStatus.failed;
        attempts = attempts;
        failure_reason = some error;
        reversal_transaction_id = some reversal_transaction_id;
        updated_at = db.now;
      })
      db)

-- ORDER BY created_at DESC
unfoldable pub list_by_merchant : ℕ → Exec (List PayoutRow)
list_by_merchant merchant_id = gets (λ db.
    reverse (order_by (λ p. p.created_at) (select (λ p. p.merchant_id == merchant_id) db.payouts)))
