-- ===== src/Transfer/Success.antt =====
-- The first attempt of a transfer between two wallets that the caller may use, with nobody
-- interfering.
use payment_apis.Prelude.{
  ℕ, suc, ◌+◌, ◌≤◌, ◌<◌, ◌≡◌, refl, ◌∙◌, subst, sym, true, false, List, some, arith, Distinct,
  first, update, ◌==◌,
}
use payment_apis.Prelude.Double.{to_string-positive}
use payment_apis.Prelude.Int.{pos, neg}
use payment_apis.Db.{Db, WalletRow, ok, bigint_end, integer_end}
use payment_apis.Ledger.{create_transaction, add_entry}
use payment_apis.Wallet.{HasRoom, has_id, has_version, apply_delta_if_version, add_delta_bump}
use payment_apis.Wallet.Deltas.{ids}
use payment_apis.Wallet.Updates.{with_wallets}
use payment_apis.Wallet.Success.{
  try_update-ok, debit_row, credit_row, add_delta_bump-debit, add_delta_bump-credit, picked-All,
  has_version-id, count-found, update-ids, first-update_other,
}
use payment_apis.Transfer.{record_ledger, move_funds}
use payment_apis.Transfer.Writes.{recorded}

-- The conditional update of a wallet at the version that it has.
pub apply_delta_if_version-debit :
    (db : Db) (w : WalletRow) (id amount : ℕ)
    → Distinct (ids db.wallets)
    → first (has_id id) db.wallets ≡ some w
    → amount ≤ w.balance
    → HasRoom w
    → apply_delta_if_version id (neg amount) w.version db ≡ (
      ok true,
      with_wallets (update (has_version id w.version) (debit_row db.now amount) db.wallets) db,
    )
unfolding apply_delta_if_version
apply_delta_if_version-debit db w id amount d e enough small =
    rw
      (try_update-ok (has_version id w.version) (add_delta_bump db.now (neg amount))
        (debit_row db.now amount) db.wallets
        (picked-All (has_version id w.version) id (has_version-id id w.version)
          (λ x. add_delta_bump db.now (neg amount) x ≡ ok (debit_row db.now amount x)) w db.wallets
          d e (add_delta_bump-debit db.now amount w enough small)))
      (rw (count-found w id db.wallets d e))

apply_delta_if_version-credit :
    (db : Db) (w : WalletRow) (id amount : ℕ)
    → Distinct (ids db.wallets)
    → first (has_id id) db.wallets ≡ some w
    → w.balance + amount < bigint_end
    → suc w.version < integer_end
    → apply_delta_if_version id (pos amount) w.version db ≡ (
      ok true,
      with_wallets (update (has_version id w.version) (credit_row db.now amount) db.wallets) db,
    )
unfolding apply_delta_if_version
apply_delta_if_version-credit db w id amount d e small newer =
    rw
      (try_update-ok (has_version id w.version) (add_delta_bump db.now (pos amount))
        (credit_row db.now amount) db.wallets
        (picked-All (has_version id w.version) id (has_version-id id w.version)
          (λ x. add_delta_bump db.now (pos amount) x ≡ ok (credit_row db.now amount x)) w db.wallets
          d e (add_delta_bump-credit db.now amount w small newer)))
      (rw (count-found w id db.wallets d e))

pub record_ledger_lem :
    (from to : WalletRow) (amount : ℕ) (db : Db)
    → 0 < amount
    → record_ledger from to amount db ≡ (ok (db.uuid db.drawn), recorded from to amount db)
unfolding record_ledger create_transaction add_entry
record_ledger_lem from to amount db h = let written = to_string-positive amount h in ground arith

-- The wallets after the two updates.
module _ (from to : WalletRow) (amount : ℕ) (db : Db) where
  abbrev pub debited : List WalletRow
  debited = update (has_version from.id from.version) (debit_row db.now amount) db.wallets

  abbrev pub credited : List WalletRow
  credited = update (has_version to.id to.version) (credit_row db.now amount) debited

module _ (from to : WalletRow) (amount : ℕ) (db : Db) (d : Distinct (ids db.wallets))
    (payer : first (has_id from.id) db.wallets ≡ some from)
    (payee : first (has_id to.id) db.wallets ≡ some to) (other : (to.id == from.id) ≡ false)
    (positive : 0 < amount) (enough : amount ≤ from.balance) (small : HasRoom from)
    (room : to.balance + amount < bigint_end) (newer : suc to.version < integer_end) where
  pub move_funds-ok : move_funds from to amount db ≡ (
    ok (record {
      transaction_id = db.uuid db.drawn;
      from_wallet_id = from.id;
      to_wallet_id = to.id;
      amount = amount;
      currency = from.currency;
    }),
    with_wallets (credited from to amount db) (recorded from to amount db),
  )
  unfolding move_funds
  move_funds-ok =
      let start = recorded from to amount db in
      let ids_kept =
        update-ids (has_version from.id from.version) (debit_row db.now amount) db.wallets
          (λ w. refl) in
      rw (record_ledger_lem from to amount db positive) (
        rw (apply_delta_if_version-debit start from from.id amount d payer enough small) (
          rw (
            apply_delta_if_version-credit (with_wallets (debited from to amount db) start) to to.id
              amount (subst Distinct (sym ids_kept) d)
              (first-update_other from.id from.version to.id (debit_row db.now amount) db.wallets
                  (λ w. refl) other
                ∙ payee)
              room newer)))
