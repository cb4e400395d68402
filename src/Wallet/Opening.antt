-- ===== src/Wallet/Opening.antt =====
-- What `walletService.create` of src/wallets/wallet.service.ts does to the tables.
use payment_apis.Prelude.{ℕ, ◌≡◌, refl, ◌⊎◌, inl, inr, ◌∷◌, false, any, ◌==◌, Bool-cases}
use payment_apis.Db.{Db, WalletRow, Currency}
use payment_apis.Wallet.{is_held_by, insert, create_row, create}

-- It leaves wallets and ledger alone, or adds an empty wallet under the next UUID.
pub create-cases :
    (merchant_id : ℕ) (currency : Currency) (db : Db)
    → let after = (create merchant_id currency db).1 in
      (after.ledger_entries ≡ db.ledger_entries)
      × ((after.wallets ≡ db.wallets)
          ⊎ ((w : WalletRow) × (w.id ≡ db.uuid db.drawn)
              × (w.balance ≡ 0)
              × (any (is_held_by w.merchant_id w.currency) db.wallets ≡ false)
              × (after.wallets ≡ w ∷ db.wallets)))
unfolding create create_row insert
create-cases merchant_id currency db =
    elim (Bool-cases (any (is_held_by merchant_id currency) db.wallets)) [
      | inl held ↦ rw held (refl, inl refl)
      | inr free ↦ rw free (elim (Bool-cases (any (λ m. m.id == merchant_id) db.merchants)) [
        | inl known ↦ rw known (refl, inr (_, refl, refl, free, refl))
        | inr stranger ↦ rw stranger (refl, inl refl)
      ])
    ]
