-- ===== src/Transfer/Inexact.antt =====
-- A transfer of src/transfers/transfer.service.ts whose amount `toString` does not write exactly.
use payment_apis.Prelude.{
  ℕ, suc, ◌+◌, ◌-◌, ◌<◌, ◌≤◌, ◌≡◌, ◌≢◌, refl, ◌∙◌, ap, sym, some, List, ◌∷◌, false, ==-refl,
  All-first, first, ◌==◌, arith,
}
use payment_apis.Prelude.Double.{to_string}
use payment_apis.Prelude.Int.{ℤ, pos, neg, ◌+ℤ◌}
use payment_apis.Db.{Db, WalletRow, LedgerEntryRow, ok, bigint_end, integer_end}
use payment_apis.Wallet.{HasRoom, has_id}
use payment_apis.Books.{IsBooked, net}
use payment_apis.Transfer.{CreateTransferDto, TransferResult, transfer}
use payment_apis.Wallet.Success.{debit_row}
use payment_apis.Transfer.Writes.{debit_entry, credit_entry}
use payment_apis.Transfer.Outcome.{quiet, IsAllowed, transfer-ok, payer_after, apart}

-- What is taken from a balance is what the balance loses.
taken_exactly :
    (b amount written : ℕ) → amount ≤ b → pos (b - amount) ≡ pos b +ℤ neg written → written ≡ amount
unfolding ◌+ℤ◌
taken_exactly b amount written enough h = ground arith

module _ (from to : WalletRow) (caller : ℕ) (dto : CreateTransferDto) (db : Db)
    (payer : first (has_id dto.from_wallet_id) db.wallets ≡ some from)
    (payee : first (has_id dto.to_wallet_id) db.wallets ≡ some to)
    (allowed : IsAllowed from to caller dto.amount)
    (different : dto.to_wallet_id ≢ dto.from_wallet_id) (positive : 0 < dto.amount)
    (small : HasRoom from) (room : to.balance + dto.amount < bigint_end)
    (newer : suc to.version < integer_end) where
  abbrev entries_after : List LedgerEntryRow
  entries_after =
      credit_entry from to dto.amount db ∷ debit_entry from to dto.amount db ∷ db.ledger_entries

  -- The net of the source's entries.
  net_after :
      (to.id == from.id) ≡ false
      → net entries_after from.id ≡ net db.ledger_entries from.id +ℤ neg (to_string dto.amount)
  unfolding net
  net_after other = ground (arith, ==-refl from.id)

  -- A transfer that returns when no other session interferes, of an amount that its text does not say exactly, as some
  -- above the safe integers, leaves the books in disagreement, where they agreed before: the balances move by the
  -- amount, and the entries have what the text says. The source covers the amount and is the caller's, the wallets
  -- are different ones of one currency, and balances and versions stay in the ranges of their types.
  pub transfer_unbooks :
      to_string dto.amount ≢ dto.amount
      → IsBooked db
      → (result : TransferResult) × ((transfer quiet caller dto db).0 ≡ ok result)
        × (¬ IsBooked (transfer quiet caller dto db).1)
  transfer_unbooks inexact b =
      let before =
        All-first (λ (w : WalletRow). pos w.balance ≡ net db.ledger_entries w.id)
          (has_id dto.from_wallet_id) db.wallets from b.reconciled payer in
      let moved =
        payer_after from to caller dto db payer payee allowed b.distinct different positive small
          room newer in
      let other =
        apart from to caller dto db payer payee allowed b.distinct different positive small room
          newer in
      rw
        (transfer-ok from to caller dto db payer payee allowed b.distinct different positive small
          room newer)
        (
          _,
          refl,
          λ after. inexact (
              taken_exactly from.balance dto.amount (to_string dto.amount) allowed.enough (
                All-first (λ (w : WalletRow). pos w.balance ≡ net (entries_after) w.id)
                  (has_id dto.from_wallet_id) _ (debit_row db.now dto.amount from) after.reconciled
                  moved
                ∙ net_after other
                ∙ ap (λ (z : ℤ). z +ℤ neg (to_string dto.amount)) (sym before))),
        )
