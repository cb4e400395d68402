-- ===== src/Seed.antt =====
-- src/seed.ts: two merchants for development, each with a wallet that is funded once.
pub mod Books
pub mod Grows
pub mod Again
pub mod Tables
use Prim.Native.String.{String}
use payment_apis.Prelude.{
  ℕ, suc, Option, none, some, List, [], ◌∷◌, first, count, any, ◌==◌, if◌then◌else◌,
}
use payment_apis.Prelude.Int.{pos}
use payment_apis.Errors.{plain}
use payment_apis.Db.{
  Db, MerchantRow, WalletRow, TransactionType, Direction, ngn, Void, Exec, pure, raise, gets,
  modify, with_transaction, ◌>>=◌, ◌>>◌,
}
use payment_apis.Merchant.{has_email, find_by_email}
use payment_apis.Wallet.{is_held_by, find_by_merchant_and_currency, apply_delta}
use payment_apis.Ledger.{create_transaction, add_entry}

-- FUND_AMOUNT and `seedMerchants`
abbrev pub fund_amount : ℕ
fund_amount = 100_000

abbrev pub seed_merchants : List String
seed_merchants = "alice@seed.local" ∷ "bob@seed.local" ∷ []

-- INSERT … ON CONFLICT DO NOTHING. The id's DEFAULT is computed before the conflict is seen.
abbrev pub upserted_merchant : String → String → Db → Db
upserted_merchant password_hash email db =
    let row : MerchantRow = record {
      id = db.uuid db.drawn;
      email = email;
      password_hash = password_hash;
      created_at = db.now;
      updated_at = db.now;
    } in
    record db {
      drawn = suc db.drawn;
      merchants = if any (has_email email) db.merchants then db.merchants else row ∷ db.merchants;
    }

abbrev pub upserted_wallet : ℕ → Db → Db
upserted_wallet merchant_id db =
    let row : WalletRow = record {
      id = db.uuid db.drawn;
      merchant_id = merchant_id;
      currency = ngn;
      balance = 0;
      version = 0;
      created_at = db.now;
      updated_at = db.now;
    } in
    record db {
      drawn = suc db.drawn;
      wallets =
          if any (is_held_by merchant_id ngn) db.wallets then db.wallets else row ∷ db.wallets;
    }

-- The id of the first row, where there is none.
abbrev pub found : {A : Type 0} → Option A → Exec A
found none = raise (plain "Cannot read properties of undefined (reading 'id')")
found (some a) = pure a

-- The deposit. Its UPDATE is that of `applyDelta`.
unfoldable pub fund : WalletRow → Exec Void
fund wallet = do
  txn_id ← create_transaction TransactionType.deposit
  add_entry txn_id wallet.id Direction.credit fund_amount ngn
  apply_delta wallet.id (pos fund_amount)

-- `if (count === 0) { … }`
unfoldable pub fund_once : WalletRow → ℕ → Exec Void
fund_once wallet entries = if entries == 0 then fund wallet else pure tt

-- The body of the loop.
unfoldable pub seed_one : String → String → Exec Void
seed_one password_hash email = do
  modify (upserted_merchant password_hash email)
  row ← find_by_email email
  merchant ← found row
  modify (upserted_wallet merchant.id)
  held ← find_by_merchant_and_currency merchant.id ngn
  wallet ← found held
  entries ← gets (λ db. count (λ e. e.wallet_id == wallet.id) db.ledger_entries)
  fund_once wallet entries

unfoldable pub seed_all : String → List String → Exec Void
seed_all password_hash [] = pure tt
seed_all password_hash (email ∷ emails) = do
  seed_one password_hash email
  seed_all password_hash emails

-- `seed`, on the hash of its password.
unfoldable pub seed : String → Exec Void
seed password_hash = with_transaction (seed_all password_hash seed_merchants)
