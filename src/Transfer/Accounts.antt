-- ===== src/Transfer/Accounts.antt =====
-- What src/transfers/transfer.service.ts promises, without its tables: accounts by their id, which a
-- transfer looks up and replaces.
use payment_apis.Prelude.{
  ℕ, ◌+◌, ◌-◌, ◌≡◌, not, Option, none, some, first, ltb, leb, ◌==◌, if◌then◌else◌,
}
use payment_apis.Errors.{
  app, db_error, wallet_not_found, forbidden, currency_mismatch, insufficient_funds,
  check_violation, out_of_range,
}
use payment_apis.Db.{Db, WalletRow, Currency, currency_eq, Result, ok, err, bigint_end}
use payment_apis.Wallet.{has_id}
use payment_apis.Transfer.{CreateTransferDto, TransferResult}

pub record Account : Type 0 where
  pub owner : ℕ
  pub currency : Currency
  pub balance : ℕ

abbrev pub Accounts : Type 0
Accounts = ℕ → Option Account

-- The account that a row stands for: versions and times are forgotten.
abbrev pub account_of : WalletRow → Account
account_of w = record { owner = w.merchant_id; currency = w.currency; balance = w.balance }

abbrev pub seen : Option WalletRow → Option Account
seen none = none
seen (some w) = some (account_of w)

abbrev pub accounts : Db → Accounts
accounts db id = seen (first (has_id id) db.wallets)

abbrev pub with_balance : ℕ → Account → Account
with_balance balance account = record account { balance = balance }

abbrev pub set : ℕ → Account → Accounts → Accounts
set id account a j = if j == id then some account else a j

-- The amount changes accounts, or the database's constraints refuse it.
abbrev pub settle_accounts : CreateTransferDto → Account → Account → Accounts → Result Accounts
settle_accounts dto from to a =
    if dto.amount == 0
    then err (db_error check_violation)
    else if leb bigint_end (to.balance + dto.amount)
    then err (db_error out_of_range)
    else ok (
        set dto.to_wallet_id (with_balance (to.balance + dto.amount) to)
          (set dto.from_wallet_id (with_balance (from.balance - dto.amount) from) a))

abbrev pub pay_between :
    ℕ → CreateTransferDto → Option Account → Option Account → Accounts → Result Accounts
pay_between caller dto none to a = err (app (wallet_not_found "source"))
pay_between caller dto (some from) none a = err (app (wallet_not_found "destination"))
pay_between caller dto (some from) (some to) a =
    if not (from.owner == caller)
    then err (app (forbidden "You do not own the source wallet"))
    else if not (currency_eq from.currency to.currency)
    then err (app currency_mismatch)
    else if ltb from.balance dto.amount
    then err (app insufficient_funds)
    else settle_accounts dto from to a

-- The promise.
abbrev pub pay : ℕ → CreateTransferDto → Accounts → Result Accounts
pay caller dto a = pay_between caller dto (a dto.from_wallet_id) (a dto.to_wallet_id) a

-- What a database keeps of it: the new accounts after a success, and everything as it was after an error.
abbrev pub Refines : Result Accounts → Db → Result TransferResult × Db → Type 0
Refines (ok a) db (r, after) =
    ((result : TransferResult) × (r ≡ ok result)) × ((id : ℕ) → accounts after id ≡ a id)
Refines (err e) db (r, after) = (r ≡ err e) × (after ≡ db)
