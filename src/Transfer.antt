-- ===== src/Transfer.antt =====
-- src/transfers/transfer.service.ts: transfers under optimistic locking. Other sessions commit while
-- a transfer waits for the database: what they do there is an argument, `Others`. Its reads take no
-- lock. Its writes, from the first INSERT to COMMIT, are one step of the model: the rows that they
-- change are locked from the first UPDATE on, and what they insert is not seen before.
pub mod Writes
pub mod Conservation
pub mod Success
pub mod Outcome
pub mod Race
pub mod Keeps
pub mod Retries
pub mod Accounts
pub mod Overflow
pub mod Refinement
pub mod Self
pub mod Inexact
use payment_apis.Prelude.{
  ℕ, zero, suc, Bool, true, false, not, ◌&&◌, ◌||◌, Option, none, some, ltb, ◌==◌, if◌then◌else◌,
}
use payment_apis.Prelude.Double.{to_string}
use payment_apis.Prelude.Int.{pos, neg}
use payment_apis.Errors.{
  Error, app, wallet_not_found, forbidden, currency_mismatch, insufficient_funds,
  concurrency_conflict,
}
use payment_apis.Db.{
  Db, WalletRow, TransactionType, Direction, Currency, currency_eq, Result, ok, err, Exec, pure,
  raise, lift, modify, throw_if, with_transaction, ◌>>=◌, ◌>>◌,
}
use payment_apis.Wallet.{find_by_id, apply_delta_if_version}
use payment_apis.Ledger.{create_transaction, add_entry}

abbrev pub max_retries : ℕ
max_retries = 5

-- src/transfers/transfer.dto.ts. An amount is a JavaScript number that the schema admits: a positive integer.
pub record CreateTransferDto : Type 0 where
  pub from_wallet_id : ℕ
  pub to_wallet_id : ℕ
  pub amount : ℕ

pub record TransferResult : Type 0 where
  pub transaction_id : ℕ
  pub from_wallet_id : ℕ
  pub to_wallet_id : ℕ
  pub amount : ℕ
  pub currency : Currency

unfoldable pub validate :
    Option WalletRow → Option WalletRow → ℕ → ℕ → Result (WalletRow × WalletRow × ℕ)
validate none to caller amount = err (app (wallet_not_found "source"))
validate (some from) none caller amount = err (app (wallet_not_found "destination"))
validate (some from) (some to) caller amount =
    if not (from.merchant_id == caller)
    then err (app (forbidden "You do not own the source wallet"))
    else if not (currency_eq from.currency to.currency)
    then err (app currency_mismatch)
    else if ltb from.balance amount
    then err (app insufficient_funds)
    else ok (from, to, amount)

-- The entries get `amountMinor.toString()`, and the balances the BigInt of the number.
unfoldable pub record_ledger : WalletRow → WalletRow → ℕ → Exec ℕ
record_ledger from to amount_minor = do
  transaction_id ← create_transaction TransactionType.transfer
  add_entry transaction_id from.id Direction.debit (to_string amount_minor) from.currency
  add_entry transaction_id to.id Direction.credit (to_string amount_minor) to.currency
  pure transaction_id

-- What follows `validate` in the transaction: the ledger, the two conditional updates, the test.
unfoldable pub move_funds : WalletRow → WalletRow → ℕ → Exec TransferResult
move_funds from to amount = do
  transaction_id ← record_ledger from to amount
  ok_from ← apply_delta_if_version from.id (neg amount) from.version
  ok_to ← apply_delta_if_version to.id (pos amount) to.version
  throw_if (not ok_from || not ok_to) (app concurrency_conflict)
  pure (record {
    transaction_id = transaction_id;
    from_wallet_id = from.id;
    to_wallet_id = to.id;
    amount = amount;
    currency = from.currency;
  })

unfoldable pub transfer_rows :
    Option WalletRow → Option WalletRow → ℕ → CreateTransferDto → Exec TransferResult
transfer_rows from_row to_row caller dto = do
  valid ← lift (validate from_row to_row caller dto.amount)
  move_funds valid.0 valid.1 valid.2

-- What other sessions commit between this transfer's two reads, and between them and its writes.
pub record Others : Type 0 where
  pub before_second_read : Db → Db
  pub before_writes : Db → Db

-- The body of the loop: one transaction.
unfoldable pub attempt_transfer : Others → ℕ → CreateTransferDto → Exec TransferResult
attempt_transfer others caller dto = do
  from_row ← find_by_id dto.from_wallet_id
  modify others.before_second_read
  to_row ← find_by_id dto.to_wallet_id
  modify others.before_writes
  with_transaction (transfer_rows from_row to_row caller dto)

abbrev pub is_conflict : Error → Bool
is_conflict (app concurrency_conflict) = true
is_conflict _ = false

-- The `catch`: a conflict before the last attempt goes round again, and all else is thrown.
abbrev pub conclude :
    (Db → Result TransferResult × Db) → ℕ → Result TransferResult × Db → Result TransferResult × Db
conclude again attempt (ok result, db) = (ok result, db)
conclude again attempt (err e, db) =
    if is_conflict e && ltb attempt max_retries then again db else (err e, db)

unfoldable pub retry_loop :
    (ℕ → Others) → (left : ℕ) → (attempt : ℕ) → ℕ → CreateTransferDto → Exec TransferResult
retry_loop others zero attempt caller dto db = raise (app concurrency_conflict) db
retry_loop others (suc left) attempt caller dto db =
    conclude (retry_loop others left (suc attempt) caller dto) attempt
      (attempt_transfer (others attempt) caller dto db)

-- `transferService.transfer`; `others n` is what happens during attempt n.
unfoldable pub transfer : (ℕ → Others) → ℕ → CreateTransferDto → Exec TransferResult
transfer others caller dto = retry_loop others max_retries 1 caller dto
