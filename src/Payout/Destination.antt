-- ===== src/Payout/Destination.antt =====
-- `insert` and `findActive` of src/payouts/payout-account.repository.ts, one after the other.
use Prim.Native.String.{String}
use payment_apis.Prelude.{ℕ, ◌≡◌, refl, inl, inr, true, some, List, any, arith, ◌==◌, Bool-cases}
use payment_apis.Db.{Db, PayoutAccountRow, Currency, ngn, usd, currency_eq, ok}
use payment_apis.Payout.{is_account_of, insert_account_row, insert_account, find_active_account}

currency_eq_refl : (c : Currency) → currency_eq c c ≡ true
currency_eq_refl ngn = refl
currency_eq_refl usd = refl

-- The account that was registered is the active one of its merchant and currency.
pub insert_account-find_active_account :
    (merchant_id : ℕ) (currency : Currency) (bank_name : String) (account_number : List ℕ)
    (row : PayoutAccountRow) (db after : Db)
    → insert_account merchant_id currency bank_name account_number db ≡ (ok row, after)
    → find_active_account merchant_id currency after ≡ (ok (some row), after)
unfolding insert_account insert_account_row find_active_account
insert_account-find_active_account merchant_id currency bank_name account_number row db after h =
    elim (Bool-cases (any (is_account_of merchant_id currency) db.payout_accounts)) [
      | inl taken ↦ absurd (ground arith)
      | inr free ↦ elim (Bool-cases (any (λ m. m.id == merchant_id) db.merchants)) [
        | inl member ↦ ground (arith, currency_eq_refl currency)
        | inr stranger ↦ absurd (ground arith)
      ]
    ]
