-- ===== src/Transfer/Keeps.antt =====
-- What the retry loop of src/transfers/transfer.service.ts keeps, for any fact of the database.
use payment_apis.Prelude.{ℕ, zero, suc, subst, sym, List}
use payment_apis.Db.{Db, WalletRow, with_transaction-keeps, given}
use payment_apis.Wallet.{find_by_id}
use payment_apis.Wallet.Updates.{with_wallets}
use payment_apis.Transfer.{
  CreateTransferDto, Others, max_retries, transfer_rows, attempt_transfer, retry_loop, transfer,
}
use payment_apis.Transfer.Writes.{recorded}
use payment_apis.Transfer.Conservation.{transfer_rows-Moved, conclude-keeps}

-- What the writes of a transfer and the other sessions keep, a transfer keeps.
module _ (P : Db → Type 0)
    (writes : (from to : WalletRow) (amount : ℕ) (ws : List WalletRow) (s : Db)
      → P s
      → P (with_wallets ws (recorded from to amount s)))
    (others : ℕ → Others)
    (before_second_read : (n : ℕ) (s : Db) → P s → P ((others n).before_second_read s))
    (before_writes : (n : ℕ) (s : Db) → P s → P ((others n).before_writes s)) (caller : ℕ)
    (dto : CreateTransferDto) where
  attempt-keeps : (n : ℕ) (db : Db) → P db → P (attempt_transfer (others n) caller dto db).1
  unfolding attempt_transfer find_by_id
  attempt-keeps n db p =
      let s = (others n).before_second_read db in
      with_transaction-keeps P (transfer_rows _ _ caller dto) ((others n).before_writes s)
        (before_writes n s (before_second_read n db p))
        λ r after h.
          given (transfer_rows-Moved _ _ caller dto _ r after h) λ (from, to, amount, e, m).
            subst P (sym m.final)
              (writes from to amount m.last _ (before_writes n s (before_second_read n db p)))

  retry_loop-keeps : (left n : ℕ) (db : Db) → P db → P (retry_loop others left n caller dto db).1
  unfolding retry_loop
  retry_loop-keeps zero n db p = p
  retry_loop-keeps (suc left) n db p =
      conclude-keeps P (retry_loop others left (suc n) caller dto) n
        (attempt_transfer (others n) caller dto db) (λ s q. retry_loop-keeps left (suc n) s q)
        (attempt-keeps n db p)

  pub transfer-keeps : (db : Db) → P db → P (transfer others caller dto db).1
  unfolding transfer
  transfer-keeps db p = retry_loop-keeps max_retries 1 db p
