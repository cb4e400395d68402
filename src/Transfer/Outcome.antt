-- ===== src/Transfer/Outcome.antt =====
-- A transfer of src/transfers/transfer.service.ts that nobody interferes with, in all its branches.
use payment_apis.Prelude.{
  ℕ, suc, ◌+◌, ◌≤◌, ◌<◌, ◌≡◌, ◌≢◌, refl, ◌∙◌, sym, subst, true, false, Option, none, some, ◌∷◌,
  arith, Distinct, first, ◌==◌, first-passes, ==_iff,
}
use payment_apis.Errors.{Error}
use payment_apis.Db.{
  Db, WalletRow, Currency, ngn, usd, currency_eq, ok, err, bigint_end, integer_end,
  with_transaction,
}
use payment_apis.Wallet.{HasRoom, has_id, find_by_id}
use payment_apis.Wallet.Deltas.{ids}
use payment_apis.Wallet.Success.{debit_row, credit_row, first-update_self, first-update_other}
use payment_apis.Wallet.Updates.{with_wallets}
use payment_apis.Transfer.{
  CreateTransferDto, TransferResult, Others, validate, transfer_rows, move_funds, attempt_transfer,
  is_conflict, conclude, retry_loop, transfer,
}
use payment_apis.Transfer.Writes.{debit_entry, credit_entry, recorded}
use payment_apis.Transfer.Success.{debited, credited, move_funds-ok}

-- No other session commits anything while the transfer runs.
abbrev pub quiet : ℕ → Others
quiet n = record { before_second_read = λ s. s; before_writes = λ s. s }

pub currency_eq_refl : (c d : Currency) → c ≡ d → currency_eq c d ≡ true
currency_eq_refl ngn d e = subst (λ (x : Currency). currency_eq ngn x ≡ true) e refl
currency_eq_refl usd d e = subst (λ (x : Currency). currency_eq usd x ≡ true) e refl

-- The rows, the caller and the amount that `validate` lets through.
pub record IsAllowed (from to : WalletRow) (caller amount : ℕ) : Type 0 where
  pub owned : from.merchant_id ≡ caller
  pub same_currency : from.currency ≡ to.currency
  pub enough : amount ≤ from.balance

pub validate-ok :
    (from to : WalletRow) (caller amount : ℕ)
    → IsAllowed from to caller amount
    → validate (some from) (some to) caller amount ≡ ok (from, to, amount)
unfolding validate
validate-ok from to caller amount a =
    ground (arith, currency_eq_refl from.currency to.currency a.same_currency)

pub validate-err :
    (from to : Option WalletRow) (caller amount : ℕ) (e : Error)
    → validate from to caller amount ≡ err e
    → is_conflict e ≡ false
unfolding validate
validate-err none to caller amount e h = ground arith
validate-err (some from) none caller amount e h = ground arith
validate-err (some from) (some to) caller amount e h = ground arith

-- A transfer that `validate` refuses for the rows as they are throws that error at once, without a
-- second attempt, and changes nothing.
pub transfer_refused :
    (caller : ℕ) (dto : CreateTransferDto) (db : Db) (e : Error)
    → validate
        (first (has_id dto.from_wallet_id) db.wallets)
        (first (has_id dto.to_wallet_id) db.wallets)
        caller
        dto.amount
      ≡ err e
    → transfer quiet caller dto db ≡ (err e, db)
unfolding transfer retry_loop attempt_transfer find_by_id transfer_rows with_transaction
transfer_refused caller dto db e h = rw h (rw (validate-err _ _ caller dto.amount e h))

module _ (from to : WalletRow) (caller : ℕ) (dto : CreateTransferDto) (db : Db)
    (payer : first (has_id dto.from_wallet_id) db.wallets ≡ some from)
    (payee : first (has_id dto.to_wallet_id) db.wallets ≡ some to)
    (allowed : IsAllowed from to caller dto.amount) (distinct : Distinct (ids db.wallets))
    (different : dto.to_wallet_id ≢ dto.from_wallet_id) (positive : 0 < dto.amount)
    (small : HasRoom from) (room : to.balance + dto.amount < bigint_end)
    (newer : suc to.version < integer_end) where
  from_id : from.id ≡ dto.from_wallet_id
  from_id =
      (==_iff from.id dto.from_wallet_id).0
        (first-passes (has_id dto.from_wallet_id) db.wallets from payer)

  to_id : to.id ≡ dto.to_wallet_id
  to_id =
      (==_iff to.id dto.to_wallet_id).0 (first-passes (has_id dto.to_wallet_id) db.wallets to payee)

  pub apart : (to.id == from.id) ≡ false
  apart = ground (arith, from_id, to_id)

  transfer-move_funds :
      transfer quiet caller dto db
      ≡ conclude
          (retry_loop quiet 4 2 caller dto)
          1
          (with_transaction (move_funds from to dto.amount) db)
  unfolding transfer retry_loop attempt_transfer find_by_id transfer_rows with_transaction
  transfer-move_funds = rw payer (rw payee (rw (validate-ok from to caller dto.amount allowed)))

  pub payer' : first (has_id from.id) db.wallets ≡ some from
  payer' = subst (λ (j : ℕ). first (has_id j) db.wallets ≡ some from) (sym from_id) payer

  pub payee' : first (has_id to.id) db.wallets ≡ some to
  payee' = subst (λ (j : ℕ). first (has_id j) db.wallets ≡ some to) (sym to_id) payee

  -- The result, and the database as the one commit leaves it.
  abbrev pub answer : TransferResult
  answer = record {
    transaction_id = db.uuid db.drawn;
    from_wallet_id = from.id;
    to_wallet_id = to.id;
    amount = dto.amount;
    currency = from.currency;
  }

  abbrev pub committed : Db
  committed = with_wallets (credited from to dto.amount db) (recorded from to dto.amount db)

  pub transfer-ok : transfer quiet caller dto db ≡ (ok answer, committed)
  unfolding with_transaction
  transfer-ok = rw transfer-move_funds (
      rw (
        move_funds-ok from to dto.amount db distinct payer' payee' apart positive allowed.enough
          small room newer))

  pub payer_after :
      first (has_id dto.from_wallet_id) committed.wallets ≡ some (debit_row db.now dto.amount from)
  payer_after =
      subst
        (λ (j : ℕ).
          first (has_id j) (credited from to dto.amount db)
          ≡ some (debit_row db.now dto.amount from))
        from_id
        (first-update_other to.id to.version from.id (credit_row db.now dto.amount)
            (debited from to dto.amount db) (λ w. refl) (ground (arith, apart))
          ∙ first-update_self from.id (debit_row db.now dto.amount) from db.wallets (λ w. refl)
              payer')

  pub payee_after :
      first (has_id dto.to_wallet_id) committed.wallets ≡ some (credit_row db.now dto.amount to)
  payee_after =
      subst
        (λ (j : ℕ).
          first (has_id j) (credited from to dto.amount db)
          ≡ some (credit_row db.now dto.amount to))
        to_id
        (first-update_self to.id (credit_row db.now dto.amount) to (debited from to dto.amount db)
          (λ w. refl)
          (first-update_other from.id from.version to.id (debit_row db.now dto.amount) db.wallets
              (λ w. refl) apart
            ∙ payee'))

  pub others_after :
      (j : ℕ)
      → j ≢ dto.from_wallet_id
      → j ≢ dto.to_wallet_id
      → first (has_id j) committed.wallets ≡ first (has_id j) db.wallets
  others_after j nf nt =
      first-update_other to.id to.version j (credit_row db.now dto.amount)
        (debited from to dto.amount db) (λ w. refl) (ground (arith, to_id))
      ∙ first-update_other from.id from.version j (debit_row db.now dto.amount) db.wallets
          (λ w. refl) (ground (arith, from_id))

  -- A transfer of a positive amount that the source covers, between two different wallets of one
  -- currency, the source being the caller's, returns when no other session interferes, no balance
  -- leaves the BIGINT range and no version the INTEGER range: the source has the amount less, the
  -- destination the amount more, each with its version bumped, every other wallet is as it was, and the
  -- ledger has one debit and one credit more, each of what the amount's text says.
  pub transfer_moves_funds :
      (j : ℕ)
      → j ≢ dto.from_wallet_id
      → j ≢ dto.to_wallet_id
      → let (r, after) = transfer quiet caller dto db in
        (r ≡ ok answer)
        × (first (has_id dto.from_wallet_id) after.wallets
            ≡ some (debit_row db.now dto.amount from))
        × (first (has_id dto.to_wallet_id) after.wallets ≡ some (credit_row db.now dto.amount to))
        × (first (has_id j) after.wallets ≡ first (has_id j) db.wallets)
        × (after.ledger_entries
            ≡ credit_entry from to dto.amount db
              ∷ debit_entry from to dto.amount db
              ∷ db.ledger_entries)
  transfer_moves_funds j one other =
      rw transfer-ok (refl, payer_after, payee_after, others_after j one other, refl)
