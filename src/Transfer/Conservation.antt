-- ===== src/Transfer/Conservation.antt =====
-- src/transfers/transfer.service.ts and the books, with other sessions that commit while it runs.
use payment_apis.Prelude.{
  ℕ, zero, suc, ◌≡◌, ◌≤◌, refl, ap, subst, sym, ◌∙◌, ◌∷◌, Option, none, some, arith, Distinct,
  Bool-cases, inl, inr, ltb, ◌&&◌,
}
use payment_apis.Prelude.Double.{max_safe_integer, to_string-exact}
use payment_apis.Prelude.Int.{pos, neg, neg_then_pos}
use payment_apis.Db.{
  Db, WalletRow, Result, ok, err, with_transaction, with_transaction-keeps, >>=-eq-ok, given, lift,
}
use payment_apis.Db.Updates.{Updated}
use payment_apis.Wallet.{has_version, find_by_id}
use payment_apis.Wallet.Deltas.{
  Delta, Targets, total, ids, has_version-Targets, first-has_version, Updated-total,
}
use payment_apis.Books.{IsBooked, post-Agrees, Updated-Distinct}
use payment_apis.Transfer.{
  CreateTransferDto, TransferResult, Others, validate, transfer_rows, attempt_transfer, is_conflict,
  max_retries, conclude, retry_loop, transfer,
}
use payment_apis.Transfer.Writes.{Moved, debit_entry, credit_entry, move_funds-Moved}

module _ (from to : WalletRow) (amount : ℕ) (db : Db) (r : TransferResult) (after : Db)
    (m : Moved from to amount db r after) (d : Distinct (ids db.wallets)) where
  -- Each conditional update picked the one row of its id, and the ids stayed distinct between.
  pub from-Targets : Targets (has_version from.id from.version) from.id db.wallets
  from-Targets = has_version-Targets from.id from.version db.wallets d m.from_met

  pub middle-Distinct : Distinct (ids m.middle)
  middle-Distinct =
      Updated-Distinct (has_version from.id from.version) (neg amount) db.wallets m.middle m.debited
        d

  pub to-Targets : Targets (has_version to.id to.version) to.id m.middle
  to-Targets = has_version-Targets to.id to.version m.middle middle-Distinct m.to_met

  Moved-total : total after.wallets ≡ total db.wallets
  Moved-total =
      let (payer, e1) = first-has_version from.id from.version db.wallets m.from_met in
      let (payee, e2) = first-has_version to.id to.version m.middle m.to_met in
      ap (λ (s : Db). total s.wallets) m.final
      ∙ neg_then_pos (total db.wallets) (total m.middle) (total m.last) amount
          (Updated-total (has_version from.id from.version) (neg amount) from.id payer db.wallets
            m.middle from-Targets d e1 m.debited)
          (Updated-total (has_version to.id to.version) (pos amount) to.id payee m.middle m.last
            to-Targets middle-Distinct e2 m.credited)

  Moved-IsBooked : amount ≤ max_safe_integer → IsBooked db → IsBooked after
  Moved-IsBooked safe b =
      let exact = to_string-exact amount safe in
      let first_entry = debit_entry from to amount db in
      let second_entry = credit_entry from to amount db in
      subst IsBooked (sym m.final) (record {
        distinct =
            Updated-Distinct (has_version to.id to.version) (pos amount) m.middle m.last m.credited
              middle-Distinct;
        reconciled =
            post-Agrees (has_version to.id to.version) second_entry
              (first_entry ∷ db.ledger_entries) m.middle m.last to-Targets
              (subst
                (λ (n : ℕ). Updated (has_version to.id to.version) (Delta (pos n)) m.middle m.last)
                (sym exact) m.credited)
              (post-Agrees (has_version from.id from.version) first_entry db.ledger_entries
                db.wallets m.middle from-Targets
                (subst
                  (λ (n : ℕ).
                    Updated (has_version from.id from.version) (Delta (neg n)) db.wallets m.middle)
                  (sym exact) m.debited)
                b.reconciled);
      })

-- What `transfer_rows` has done when it returns: it validated the rows, and moved the funds.
pub transfer_rows-Moved :
    (from_row to_row : Option WalletRow) (caller : ℕ) (dto : CreateTransferDto) (db : Db)
    (r : TransferResult) (after : Db)
    → transfer_rows from_row to_row caller dto db ≡ (ok r, after)
    → (from : WalletRow) × (to : WalletRow) × (amount : ℕ) × (validate from_row to_row caller
          dto.amount
        ≡ ok (from, to, amount))
      × Moved from to amount db r after
unfolding transfer_rows
transfer_rows-Moved from_row to_row caller dto db r after h =
    >>=-eq-ok (lift (validate from_row to_row caller dto.amount)) _ db r after h λ v mid e1 h1. (
      v.0,
      v.1,
      v.2,
      ground arith,
      subst (λ (s : Db). Moved v.0 v.1 v.2 s r after) (ground arith)
          (move_funds-Moved v.0 v.1 v.2 mid r after h1),
    )

validate-amount :
    (from_row to_row : Option WalletRow) (caller amount : ℕ) (v : WalletRow × WalletRow × ℕ)
    → validate from_row to_row caller amount ≡ ok v
    → v.2 ≡ amount
unfolding validate
validate-amount none to caller amount v h = cc
validate-amount (some from) none caller amount v h = cc
validate-amount (some from) (some to) caller amount v h = ground arith

-- The transaction of a transfer of a safe integer, on whatever rows it has read, commits with the books in
-- agreement and the sum of all balances as it was, or rolls back.
pub transfer_rows-conserves :
    (from_row to_row : Option WalletRow) (caller : ℕ) (dto : CreateTransferDto) (db : Db)
    → dto.amount ≤ max_safe_integer
    → IsBooked db
    → let after = (with_transaction (transfer_rows from_row to_row caller dto) db).1 in
      IsBooked after × (total after.wallets ≡ total db.wallets)
transfer_rows-conserves from_row to_row caller dto db safe b =
    with_transaction-keeps (λ s. IsBooked s × (total s.wallets ≡ total db.wallets))
      (transfer_rows from_row to_row caller dto) db (b, refl)
      λ r after h.
        given (transfer_rows-Moved from_row to_row caller dto db r after h)
          λ (from, to, amount, e, m). (
            Moved-IsBooked from to amount db r after m b.distinct
                (subst (λ (n : ℕ). n ≤ max_safe_integer)
                  (sym (validate-amount from_row to_row caller dto.amount _ e)) safe)
                b,
            Moved-total from to amount db r after m b.distinct,
          )

-- What others do keeps the books.
pub record AreHonest (others : Others) : Type 0 where
  pub between_reads : (s : Db) → IsBooked s → IsBooked (others.before_second_read s)
  pub after_reads : (s : Db) → IsBooked s → IsBooked (others.before_writes s)

attempt-IsBooked :
    (others : Others) (caller : ℕ) (dto : CreateTransferDto) (db : Db)
    → AreHonest others
    → dto.amount ≤ max_safe_integer
    → IsBooked db
    → IsBooked (attempt_transfer others caller dto db).1
unfolding attempt_transfer find_by_id
attempt-IsBooked others caller dto db honest safe b =
    let s = others.before_second_read db in
    (transfer_rows-conserves _ _ caller dto (others.before_writes s) safe
      (honest.after_reads s (honest.between_reads db b))).0

pub conclude-keeps {ℓ} :
    (P : Db → Type ℓ) (again : Db → Result TransferResult × Db) (attempt : ℕ)
    (r : Result TransferResult × Db)
    → ((s : Db) → P s → P (again s).1)
    → P r.1
    → P (conclude again attempt r).1
conclude-keeps P again attempt (ok r, s) keeps p = p
conclude-keeps P again attempt (err e, s) keeps p =
    elim (Bool-cases (is_conflict e && ltb attempt max_retries)) [
      | inl retry ↦ rw retry (keeps s p)
      | inr thrown ↦ rw thrown p
    ]

retry_loop-IsBooked :
    (others : ℕ → Others) (left attempt caller : ℕ) (dto : CreateTransferDto) (db : Db)
    → ((n : ℕ) → AreHonest (others n))
    → dto.amount ≤ max_safe_integer
    → IsBooked db
    → IsBooked (retry_loop others left attempt caller dto db).1
unfolding retry_loop
retry_loop-IsBooked others zero attempt caller dto db honest safe b = b
retry_loop-IsBooked others (suc left) attempt caller dto db honest safe b =
    conclude-keeps IsBooked (retry_loop others left (suc attempt) caller dto) attempt
      (attempt_transfer (others attempt) caller dto db)
      (λ s p. retry_loop-IsBooked others left (suc attempt) caller dto s honest safe p)
      (attempt-IsBooked (others attempt) caller dto db (honest attempt) safe b)

-- A transfer of a safe integer keeps the books through all its attempts, while other sessions that keep them commit
-- between its reads and before its writes.
pub transfer-IsBooked :
    (others : ℕ → Others) (caller : ℕ) (dto : CreateTransferDto) (db : Db)
    → ((n : ℕ) → AreHonest (others n))
    → dto.amount ≤ max_safe_integer
    → IsBooked db
    → IsBooked (transfer others caller dto db).1
unfolding transfer
transfer-IsBooked others caller dto db honest safe b =
    retry_loop-IsBooked others max_retries 1 caller dto db honest safe b
