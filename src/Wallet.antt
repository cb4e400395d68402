-- ===== src/Wallet.antt =====
-- src/wallets/wallet.repository.ts and wallet.service.ts: the wallets table and its API.
pub mod Deltas
pub mod Updates
pub mod Success
pub mod Closed
pub mod Opening
use payment_apis.Prelude.{
  ℕ, suc, Bool, not, ◌&&◌, Option, List, ◌∷◌, map, select, first, count, any, order_by, ltb, leb,
  ◌<◌, ◌==◌, if◌then◌else◌,
}
use payment_apis.Prelude.Int.{ℤ, pos, negsuc, ◌+ℤ◌}
use payment_apis.Errors.{
  AppError, db_error, unique_violation, check_violation, foreign_key_violation, out_of_range,
}
use payment_apis.Db.{
  WalletRow, Currency, currency_eq, currency_name, bigint_end, integer_end, Void, Result, ok, err,
  Exec, pure, gets, run, modify, throw_if, catch, on_unique, gen_random_uuid, try_update, ◌>>=◌,
  ◌>>◌,
}

-- A balance that is a BIGINT, and a version with an INTEGER after it.
abbrev pub HasRoom : WalletRow → Type 0
HasRoom w = (w.balance < bigint_end) × (suc w.version < integer_end)

-- `WHERE id = $1`
abbrev pub has_id : ℕ → WalletRow → Bool
has_id id w = w.id == id

-- `WHERE merchant_id = $1 AND currency = $2`
abbrev pub is_held_by : ℕ → Currency → WalletRow → Bool
is_held_by merchant_id currency w =
    (w.merchant_id == merchant_id) && currency_eq w.currency currency

-- `WHERE id = $2 AND version = $3`
abbrev pub has_version : ℕ → ℕ → WalletRow → Bool
has_version id expected_version w = (w.id == id) && (w.version == expected_version)

-- `balance = balance + $1::bigint`, under the column's type and its CHECK (balance >= 0)
abbrev pub checked_balance : ℤ → Result ℕ
checked_balance (pos b) = if ltb b bigint_end then ok b else err (db_error out_of_range)
checked_balance (negsuc n) = err (db_error check_violation)

-- The SET clauses of `applyDelta` and of `applyDeltaIfVersion`. They are computed before the CHECK is tested.
abbrev with_balance : (ℕ → WalletRow) → Result ℕ → Result WalletRow
with_balance f (ok b) = ok (f b)
with_balance f (err e) = err e

unfoldable pub add_delta : ℕ → ℤ → WalletRow → Result WalletRow
add_delta now delta w =
    with_balance (λ b. record w { balance = b; updated_at = now })
      (checked_balance (pos w.balance +ℤ delta))

unfoldable pub add_delta_bump : ℕ → ℤ → WalletRow → Result WalletRow
add_delta_bump now delta w =
    if leb integer_end (suc w.version)
    then err (db_error out_of_range)
    else with_balance (λ b. record w { balance = b; version = suc w.version; updated_at = now })
        (checked_balance (pos w.balance +ℤ delta))

-- The INSERT of `create`: UNIQUE (merchant_id, currency) and the reference to merchants.
insert : ℕ → Currency → Exec WalletRow
insert merchant_id currency = do
  db ← gets (λ db. db)
  throw_if (any (is_held_by merchant_id currency) db.wallets) (db_error unique_violation)
  throw_if (not (any (λ m. m.id == merchant_id) db.merchants)) (db_error foreign_key_violation)
  id ← gen_random_uuid
  let row : WalletRow = record {
    id = id;
    merchant_id = merchant_id;
    currency = currency;
    balance = 0;
    version = 0;
    created_at = db.now;
    updated_at = db.now;
  }
  modify (λ db. record db { wallets = row ∷ db.wallets })
  pure row

-- `walletRepository.create`
pub create_row : ℕ → Currency → Exec WalletRow
unfolding insert
create_row merchant_id currency =
    catch (insert merchant_id currency)
      (on_unique (AppError.wallet_already_exists (currency_name currency)))

unfoldable pub find_by_id : ℕ → Exec (Option WalletRow)
find_by_id id = gets (λ db. first (has_id id) db.wallets)

-- The row lock of FOR UPDATE lasts until the transaction ends; what runs in one transaction of the
-- model is not interleaved with others, so the lock leaves no trace in the state.
unfoldable pub find_by_id_for_update : ℕ → Exec (Option WalletRow)
find_by_id_for_update id = gets (λ db. first (has_id id) db.wallets)

unfoldable pub find_by_merchant_and_currency : ℕ → Currency → Exec (Option WalletRow)
find_by_merchant_and_currency merchant_id currency =
    gets (λ db. first (is_held_by merchant_id currency) db.wallets)

unfoldable pub apply_delta : ℕ → ℤ → Exec Void
apply_delta id delta db =
    run (try_update (has_id id) (add_delta db.now delta) db.wallets)
      (λ ws db. record db { wallets = ws }) db

unfoldable pub apply_delta_if_version : ℕ → ℤ → ℕ → Exec Bool
apply_delta_if_version id delta expected_version = do
  db ← gets (λ db. db)
  run (try_update (has_version id expected_version) (add_delta_bump db.now delta) db.wallets)
      (λ ws db. record db { wallets = ws })
  pure (count (has_version id expected_version) db.wallets == 1)

pub list_by_merchant : ℕ → Exec (List WalletRow)
list_by_merchant merchant_id =
    gets
      (λ db. order_by (λ w. w.created_at) (select (λ w. w.merchant_id == merchant_id) db.wallets))

-- src/wallets/wallet.dto.ts
pub record PublicWallet : Type 0 where
  pub id : ℕ
  pub currency : Currency
  pub balance : ℕ
  pub created_at : ℕ

pub to_public_wallet : WalletRow → PublicWallet
to_public_wallet row = record {
  id = row.id;
  currency = row.currency;
  balance = row.balance;
  created_at = row.created_at;
}

-- `walletService.create` and `walletService.list`
pub create : ℕ → Currency → Exec PublicWallet
create merchant_id currency = do row ← create_row merchant_id currency; pure (to_public_wallet row)

pub list : ℕ → Exec (List PublicWallet)
list merchant_id = do rows ← list_by_merchant merchant_id; pure (map to_public_wallet rows)
