-- ===== src/Transfer/Race.antt =====
-- What optimistic locking does not see: `applyDelta`, by which payments and payouts move balances,
-- leaves the version alone.
use payment_apis.Prelude.{
  ℕ, suc, ◌+◌, ◌≤◌, ◌<◌, ◌≡◌, refl, ap, sym, subst, some, arith, Distinct, first, update,
  first-passes, ==_iff,
}
use payment_apis.Prelude.Int.{neg, ◌+ℤ◌}
use payment_apis.Errors.{db_error, check_violation}
use payment_apis.Db.{Db, WalletRow, err, integer_end, with_transaction}
use payment_apis.Wallet.{
  HasRoom, has_id, has_version, find_by_id, add_delta_bump, apply_delta, apply_delta_if_version,
}
use payment_apis.Wallet.Deltas.{ids}
use payment_apis.Wallet.Updates.{with_wallets}
use payment_apis.Wallet.Success.{
  spend_row, apply_delta-spend, first-spent, try_update-err, has_version-id,
}
use payment_apis.Transfer.{CreateTransferDto, Others, move_funds, attempt_transfer, transfer_rows}
use payment_apis.Transfer.Success.{record_ledger_lem}
use payment_apis.Transfer.Outcome.{IsAllowed, validate-ok}

-- The debit that the balance no longer covers.
add_delta_bump-short :
    (now amount : ℕ) (w : WalletRow)
    → w.balance < amount
    → suc w.version < integer_end
    → add_delta_bump now (neg amount) w ≡ err (db_error check_violation)
unfolding add_delta_bump ◌+ℤ◌
add_delta_bump-short now amount w h newer = ground arith

move_funds-short :
    (from to w : WalletRow) (amount : ℕ) (db : Db)
    → first (has_id from.id) db.wallets ≡ some w
    → w.id ≡ from.id
    → w.version ≡ from.version
    → w.balance < amount
    → suc w.version < integer_end
    → (with_transaction (move_funds from to amount) db) ≡ (err (db_error check_violation), db)
unfolding move_funds with_transaction apply_delta_if_version
move_funds-short from to w amount db e same_id same_version short newer =
    rw (record_ledger_lem from to amount db (omega arith)) (
      rw (
        try_update-err (has_version from.id from.version) from.id
          (has_version-id from.id from.version) (add_delta_bump db.now (neg amount))
          (db_error check_violation) w db.wallets (ground arith)
          (add_delta_bump-short db.now amount w short newer) e))

transfer_rows-move_funds :
    (from to : WalletRow) (caller : ℕ) (dto : CreateTransferDto) (s : Db)
    → IsAllowed from to caller dto.amount
    → with_transaction (transfer_rows (some from) (some to) caller dto) s
      ≡ with_transaction (move_funds from to dto.amount) s
unfolding transfer_rows with_transaction
transfer_rows-move_funds from to caller dto s allowed =
    rw (validate-ok from to caller dto.amount allowed)

-- Another session moves money out of the source by `applyDelta`, between this transfer's reads and
-- its writes.
abbrev pub spends : ℕ → ℕ → Others
spends id spent = record {
  before_second_read = λ s. s;
  before_writes = λ s. (apply_delta id (neg spent) s).1;
}

-- When another session moves money out of the source by `applyDelta` between the reads and the writes,
-- so that the amount is no longer covered, the attempt does not report a conflict and is not tried
-- again: the version still matches, and the transaction fails on CHECK (balance >= 0). The source's balance
-- and its next version are in the ranges of their types.
pub missed_conflict :
    (from to : WalletRow) (caller spent : ℕ) (dto : CreateTransferDto) (db : Db)
    → first (has_id dto.from_wallet_id) db.wallets ≡ some from
    → first (has_id dto.to_wallet_id) db.wallets ≡ some to
    → IsAllowed from to caller dto.amount
    → Distinct (ids db.wallets)
    → HasRoom from
    → spent ≤ from.balance
    → from.balance < dto.amount + spent
    → (attempt_transfer (spends dto.from_wallet_id spent) caller dto db).0
      ≡ err (db_error check_violation)
unfolding attempt_transfer find_by_id
missed_conflict from to caller spent dto db payer payee allowed distinct small enough short =
    let id = dto.from_wallet_id in
    let from_id = (==_iff from.id id).0 (first-passes (has_id id) db.wallets from payer) in
    rw (payer, payee, apply_delta-spend db from id spent distinct payer enough small.0)
      (rw (transfer_rows-move_funds from to caller dto _ allowed) (
        ap (λ r. r.0)
          (move_funds-short from to (spend_row db.now spent from) dto.amount
            (with_wallets (update (has_id id) (spend_row db.now spent) db.wallets) db)
            (subst
              (λ (j : ℕ).
                first (has_id j) (update (has_id id) (spend_row db.now spent) db.wallets)
                ≡ some (spend_row db.now spent from))
              (sym from_id) (first-spent id db.now spent from db.wallets payer))
            refl refl (omega arith) small.1)))
