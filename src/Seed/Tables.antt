-- ===== src/Seed/Tables.antt =====
-- The seed data of src/seed.ts and the table of wallets.
use Prim.Native.String.{String}
use payment_apis.Prelude.{
  ℕ, ◌≡◌, refl, false, inl, inr, subst, Option, none, some, List, [], ◌∷◌, any, ◌==◌, count,
  Bool-cases,
}
use payment_apis.Prelude.Int.{pos}
use payment_apis.Db.{
  Db, WalletRow, TransactionType, Direction, ngn, gets, modify, with_transaction-keeps, >>=-keeps,
  ◌>>=◌,
}
use payment_apis.Merchant.{find_by_email}
use payment_apis.Wallet.{is_held_by, find_by_merchant_and_currency}
use payment_apis.Wallet.Closed.{IsDeltaClosed, Of, apply_delta-Of}
use payment_apis.Ledger.{create_transaction, add_entry}
use payment_apis.Ledger.Tables.{create_transaction-Of, add_entry-Of}
use payment_apis.Seed.{
  fund_amount, upserted_merchant, upserted_wallet, found, fund, fund_once, seed_one, seed_all, seed,
  seed_merchants,
}

-- What the seed data need: the deposit, and the INSERT of an empty NGN wallet.
pub record IsSeedClosed (P : List WalletRow → Type 0) : Type 0 where
  pub deltas : IsDeltaClosed P
  pub opens :
      (w : WalletRow) (xs : List WalletRow)
      → w.currency ≡ ngn
      → w.balance ≡ 0
      → any (is_held_by w.merchant_id w.currency) xs ≡ false
      → P xs
      → P (w ∷ xs)

module _ (P : List WalletRow → Type 0) where
  found-Of : {A : Type 0} (o : Option A) (db : Db) → Of P db → Of P (found o db).1
  found-Of none db r = r
  found-Of (some a) db r = r

  merchant-Of :
      (password_hash email : String) (db : Db)
      → Of P db
      → Of P (modify (upserted_merchant password_hash email) db).1
  unfolding Of
  merchant-Of password_hash email db r = r

  email-Of : (email : String) (db : Db) → Of P db → Of P (find_by_email email db).1
  unfolding find_by_email
  email-Of email db r = r

  held-Of :
      (merchant_id : ℕ) (db : Db)
      → Of P db
      → Of P (find_by_merchant_and_currency merchant_id ngn db).1
  unfolding find_by_merchant_and_currency
  held-Of merchant_id db r = r

  counted-Of :
      (wallet : WalletRow) (db : Db)
      → Of P db
      → Of P (gets (λ d. count (λ e. e.wallet_id == wallet.id) d.ledger_entries) db).1
  counted-Of wallet db r = r

module _ (P : List WalletRow → Type 0) (closed : IsSeedClosed P) where
  wallet-Of :
      (merchant_id : ℕ) (db : Db) → Of P db → Of P (modify (upserted_wallet merchant_id) db).1
  unfolding Of
  wallet-Of merchant_id db r = elim (Bool-cases (any (is_held_by merchant_id ngn) db.wallets)) [
    | inl held ↦ rw held r
    | inr free ↦ rw free (closed.opens _ db.wallets refl refl free r)
  ]

  fund-Of : (wallet : WalletRow) (db : Db) → Of P db → Of P (fund wallet db).1
  unfolding fund
  fund-Of wallet db r =
      >>=-keeps (Of P) (create_transaction TransactionType.deposit) _ db
        (create_transaction-Of P TransactionType.deposit db r)
        λ id s p.
          >>=-keeps (Of P) (add_entry id wallet.id Direction.credit fund_amount ngn) _ s
            (add_entry-Of P id wallet.id Direction.credit fund_amount ngn s p)
            λ v t q. apply_delta-Of P closed.deltas wallet.id (pos fund_amount) t q

  fund_once-Of :
      (wallet : WalletRow) (entries : ℕ) (db : Db) → Of P db → Of P (fund_once wallet entries db).1
  unfolding fund_once
  fund_once-Of wallet entries db r = elim (Bool-cases (entries == 0)) [
    | inl new ↦ rw new (fund-Of wallet db r)
    | inr funded ↦ rw funded r
  ]

  seed_wallet-Of :
      (wallet : WalletRow) (db : Db)
      → Of P db
      → Of P
          ((gets (λ d. count (λ e. e.wallet_id == wallet.id) d.ledger_entries) >>= fund_once wallet)
            db).1
  seed_wallet-Of wallet db r =
      >>=-keeps (Of P) (gets (λ d. count (λ e. e.wallet_id == wallet.id) d.ledger_entries))
        (fund_once wallet) db (counted-Of P wallet db r) (fund_once-Of wallet)

  seed_one-Of :
      (password_hash email : String) (db : Db) → Of P db → Of P (seed_one password_hash email db).1
  unfolding seed_one
  seed_one-Of password_hash email db r =
      >>=-keeps (Of P) (find_by_email email) _ (upserted_merchant password_hash email db)
        (email-Of P email (upserted_merchant password_hash email db)
          (merchant-Of P password_hash email db r))
        λ row s p. >>=-keeps (Of P) (found row) _ s (found-Of P row s p) λ merchant t q.
          >>=-keeps (Of P) (find_by_merchant_and_currency merchant.id ngn) _
            (upserted_wallet merchant.id t)
            (held-Of P merchant.id (upserted_wallet merchant.id t) (wallet-Of merchant.id t q))
            λ held u k. >>=-keeps (Of P) (found held) _ u (found-Of P held u k) seed_wallet-Of

  seed_all-Of :
      (password_hash : String) (emails : List String) (db : Db)
      → Of P db
      → Of P (seed_all password_hash emails db).1
  unfolding seed_all
  seed_all-Of password_hash [] db r = r
  seed_all-Of password_hash (email ∷ emails) db r =
      >>=-keeps (Of P) (seed_one password_hash email) _ db (seed_one-Of password_hash email db r)
        (λ v s p. seed_all-Of password_hash emails s p)

  pub seed-Of : (password_hash : String) (db : Db) → Of P db → Of P (seed password_hash db).1
  unfolding seed
  seed-Of password_hash db r =
      with_transaction-keeps (Of P) (seed_all password_hash seed_merchants) db r
        λ v after h. subst (λ x. Of P x.1) h (seed_all-Of password_hash seed_merchants db r)
