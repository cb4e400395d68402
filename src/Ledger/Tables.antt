-- ===== src/Ledger/Tables.antt =====
-- What src/ledger/ledger.repository.ts leaves alone: the wallets.
use payment_apis.Prelude.{ℕ, ◌≡◌, refl, inl, inr, ◌==◌, Bool-cases, List}
use payment_apis.Db.{Db, WalletRow, TransactionType, Direction, Currency}
use payment_apis.Wallet.Closed.{Of, same-Of}
use payment_apis.Ledger.{create_transaction, add_entry}

create_transaction-wallets :
    (type : TransactionType) (db : Db) → (create_transaction type db).1.wallets ≡ db.wallets
unfolding create_transaction
create_transaction-wallets type db = refl

add_entry-wallets :
    (transaction_id wallet_id : ℕ) (direction : Direction) (amount : ℕ) (currency : Currency)
    (db : Db)
    → (add_entry transaction_id wallet_id direction amount currency db).1.wallets ≡ db.wallets
unfolding add_entry
add_entry-wallets transaction_id wallet_id direction amount currency db =
    elim (Bool-cases (amount == 0)) [
      | inl nothing ↦ rw nothing refl
      | inr something ↦ rw something refl
    ]

module _ (P : List WalletRow → Type 0) where
  pub create_transaction-Of :
      (type : TransactionType) (db : Db) → Of P db → Of P (create_transaction type db).1
  create_transaction-Of type db = same-Of P db _ (create_transaction-wallets type db)

  pub add_entry-Of :
      (transaction_id wallet_id : ℕ) (direction : Direction) (amount : ℕ) (currency : Currency)
      (db : Db)
      → Of P db
      → Of P (add_entry transaction_id wallet_id direction amount currency db).1
  add_entry-Of transaction_id wallet_id direction amount currency db =
      same-Of P db _ (add_entry-wallets transaction_id wallet_id direction amount currency db)
