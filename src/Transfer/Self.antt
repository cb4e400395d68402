-- ===== src/Transfer/Self.antt =====
-- A transfer of src/transfers/transfer.service.ts from a wallet to itself.
use payment_apis.Prelude.{
  ℕ, zero, suc, ◌≤◌, ◌<◌, ◌≡◌, ◌∙◌, refl, subst, sym, ap, inl, inr, Bool, List, [], ◌∷◌, some,
  arith, Distinct, first, count, update, ==_iff, first-passes, Bool-cases,
}
use payment_apis.Prelude.Int.{pos}
use payment_apis.Errors.{app, concurrency_conflict}
use payment_apis.Db.{Db, WalletRow, Result, ok, err, try_update, with_transaction}
use payment_apis.Wallet.{
  HasRoom, has_id, has_version, find_by_id, apply_delta_if_version, add_delta_bump,
}
use payment_apis.Wallet.Deltas.{ids}
use payment_apis.Wallet.Updates.{with_wallets}
use payment_apis.Wallet.Success.{debit_row}
use payment_apis.Transfer.{
  CreateTransferDto, max_retries, transfer_rows, move_funds, attempt_transfer, transfer,
}
use payment_apis.Transfer.Writes.{recorded}
use payment_apis.Transfer.Success.{debited, record_ledger_lem, apply_delta_if_version-debit}
use payment_apis.Transfer.Outcome.{quiet, validate-ok}
use payment_apis.Transfer.Retries.{after_attempts, transfer_exhausts}

-- No row has the version that the debit has just replaced.
count-debited :
    (id version now amount : ℕ) (ws : List WalletRow)
    → count (has_version id version) (update (has_version id version) (debit_row now amount) ws) ≡ 0
count-debited id version now amount [] = refl
count-debited id version now amount (w ∷ ws) =
    ground (arith, count-debited id version now amount ws)

try_update-none :
    {A : Type 0} (p : A → Bool) (f : A → Result A) (xs : List A)
    → count p xs ≡ 0
    → try_update p f xs ≡ ok xs
try_update-none p f [] none = refl
try_update-none p f (x ∷ xs) none = elim (Bool-cases (p x)) [
  | inl hit ↦ absurd (ground arith)
  | inr miss ↦ rw miss (rw (try_update-none p f xs (rw miss at none)))
]

apply_delta_if_version-stale :
    (id amount version : ℕ) (db : Db)
    → count (has_version id version) db.wallets ≡ 0
    → apply_delta_if_version id (pos amount) version db ≡ (ok Bool.false, db)
unfolding apply_delta_if_version
apply_delta_if_version-stale id amount version db none =
    rw
      (try_update-none (has_version id version) (add_delta_bump db.now (pos amount)) db.wallets
        none)
      (rw none refl)

module _ (w : WalletRow) (caller : ℕ) (dto : CreateTransferDto) (db : Db)
    (same : dto.to_wallet_id ≡ dto.from_wallet_id)
    (held : first (has_id dto.from_wallet_id) db.wallets ≡ some w) (owned : w.merchant_id ≡ caller)
    (positive : 0 < dto.amount) (enough : dto.amount ≤ w.balance)
    (distinct : Distinct (ids db.wallets)) (small : HasRoom w) where
  own_id : w.id ≡ dto.from_wallet_id
  own_id =
      (==_iff w.id dto.from_wallet_id).0
        (first-passes (has_id dto.from_wallet_id) db.wallets w held)

  move_funds-conflict :
      (after : Db) × (move_funds w w dto.amount db ≡ (err (app concurrency_conflict), after))
  unfolding move_funds
  move_funds-conflict =
      let start = recorded w w dto.amount db in
      (
        with_wallets (debited w w dto.amount db) start,
        rw (record_ledger_lem w w dto.amount db positive) (
            rw
              (apply_delta_if_version-debit start w w.id dto.amount distinct
                (subst (λ (j : ℕ). first (has_id j) db.wallets ≡ some w) (sym own_id) held) enough
                small)
              (rw
                (apply_delta_if_version-stale w.id dto.amount w.version
                  (with_wallets (debited w w dto.amount db) start)
                  (count-debited w.id w.version db.now dto.amount db.wallets))
                refl)),
      )

  attempt-conflict :
      (n : ℕ) → attempt_transfer (quiet n) caller dto db ≡ (err (app concurrency_conflict), db)
  unfolding attempt_transfer find_by_id transfer_rows with_transaction
  attempt-conflict n =
      let payee : first (has_id dto.to_wallet_id) db.wallets ≡ some w =
        subst (λ (j : ℕ). first (has_id j) db.wallets ≡ some w) (sym same) held in
      let (after, e) = move_funds-conflict in
      rw held (
        rw payee (
          rw
            (validate-ok w w caller dto.amount
              (record { owned = owned; same_currency = refl; enough = enough }))
            (rw e refl)))

  attempts-unchanged : (k : ℕ) → after_attempts quiet caller dto db k ≡ db
  attempts-unchanged zero = refl
  attempts-unchanged (suc k) =
      subst (λ (s : Db). (attempt_transfer (quiet (suc k)) caller dto s).1 ≡ db)
        (sym (attempts-unchanged k)) (ap (λ r. r.1) (attempt-conflict (suc k)))

  -- A transfer from a wallet to itself, by its owner, of an amount that it has, that no other session interferes
  -- with, meets its own first update as a conflict in each of the five attempts: it throws the conflict and
  -- changes nothing.
  pub self_transfer : transfer quiet caller dto db ≡ (err (app concurrency_conflict), db)
  self_transfer =
      transfer_exhausts quiet caller dto db
        (λ j early. rw (attempts-unchanged j) (ap (λ r. r.0) (attempt-conflict (suc j))))
      ∙ ap (λ (s : Db). (err (app concurrency_conflict), s)) (attempts-unchanged max_retries)
