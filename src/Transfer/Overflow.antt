-- ===== src/Transfer/Overflow.antt =====
-- A transfer that the database's constraints refuse: an amount of zero, or one that takes the
-- destination out of the BIGINT range.
use payment_apis.Prelude.{
  ℕ, ◌+◌, ◌≤◌, ◌<◌, ◌≡◌, refl, ◌∙◌, subst, sym, inl, inr, false, List, [], ◌∷◌, some, arith,
  Distinct, first, ◌==◌, Bool-cases,
}
use payment_apis.Prelude.Double.{to_string}
use payment_apis.Prelude.Int.{pos, ◌+ℤ◌}
use payment_apis.Errors.{Error, db_error, check_violation, out_of_range}
use payment_apis.Db.{Db, WalletRow, Result, err, bigint_end, try_update}
use payment_apis.Ledger.{create_transaction, add_entry}
use payment_apis.Wallet.{HasRoom, has_id, has_version, apply_delta_if_version, add_delta_bump}
use payment_apis.Wallet.Deltas.{ids}
use payment_apis.Wallet.Updates.{with_wallets}
use payment_apis.Wallet.Success.{debit_row, first-update_other}
use payment_apis.Transfer.{record_ledger, move_funds}
use payment_apis.Transfer.Writes.{recorded}
use payment_apis.Transfer.Success.{apply_delta_if_version-debit, record_ledger_lem, debited}

-- The conditional update fails with the one row that it picks.
try_update-err :
    (id : ℕ) (f : WalletRow → Result WalletRow) (w : WalletRow) (ws : List WalletRow) (e : Error)
    → first (has_id id) ws ≡ some w
    → f w ≡ err e
    → try_update (has_version id w.version) f ws ≡ err e
try_update-err id f w [] e found fails = cc
try_update-err id f w (x ∷ xs) e found fails = elim (Bool-cases (x.id == id)) [
  | inl hit ↦
      let same : x ≡ w = ground arith in
      subst (λ (y : WalletRow). try_update (has_version id w.version) f (y ∷ xs) ≡ err e) (sym same)
        (ground arith)
  | inr miss ↦ ground (arith, try_update-err id f w xs e (rw miss at found) fails)
]

add_delta_bump-out_of_range :
    (now amount : ℕ) (w : WalletRow)
    → bigint_end ≤ w.balance + amount
    → add_delta_bump now (pos amount) w ≡ err (db_error out_of_range)
unfolding add_delta_bump ◌+ℤ◌
add_delta_bump-out_of_range now amount w h = ground arith

pub move_funds-zero :
    (from to : WalletRow) (db : Db) → (move_funds from to 0 db).0 ≡ err (db_error check_violation)
unfolding move_funds record_ledger create_transaction add_entry to_string
move_funds-zero from to db = refl

module _ (from to : WalletRow) (amount : ℕ) (db : Db) (d : Distinct (ids db.wallets))
    (payer : first (has_id from.id) db.wallets ≡ some from)
    (payee : first (has_id to.id) db.wallets ≡ some to) (other : (to.id == from.id) ≡ false)
    (positive : 0 < amount) (enough : amount ≤ from.balance) (small : HasRoom from)
    (full : bigint_end ≤ to.balance + amount) where
  credit_fails :
      try_update
        (has_version to.id to.version)
        (add_delta_bump db.now (pos amount))
        (debited from to amount db)
      ≡ err (db_error out_of_range)
  credit_fails =
      try_update-err to.id (add_delta_bump db.now (pos amount)) to (debited from to amount db)
        (db_error out_of_range)
        (first-update_other from.id from.version to.id (debit_row db.now amount) db.wallets
            (λ w. refl) other
          ∙ payee)
        (add_delta_bump-out_of_range db.now amount to full)

  credit_refused :
      apply_delta_if_version to.id
        (pos amount)
        to.version
        (with_wallets (debited from to amount db) (recorded from to amount db))
      ≡ (
        err (db_error out_of_range),
        with_wallets (debited from to amount db) (recorded from to amount db),
      )
  unfolding apply_delta_if_version
  credit_refused = rw credit_fails refl

  pub move_funds-out_of_range : (move_funds from to amount db).0 ≡ err (db_error out_of_range)
  unfolding move_funds
  move_funds-out_of_range =
      let start = recorded from to amount db in
      rw (record_ledger_lem from to amount db positive) (
        rw (apply_delta_if_version-debit start from from.id amount d payer enough small)
          (rw credit_refused refl))
