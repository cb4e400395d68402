-- ===== src/Payout/Accounts.antt =====
-- The public forms of accounts and payouts, src/payouts/payout.dto.ts, and the calls of
-- src/payouts/payout.service.ts that register accounts and list.
use Prim.Native.String.{String}
use payment_apis.Prelude.{
  ℕ, Bool, true, false, Option, List, [], ◌∷◌, map, length, ltb, leb, ◌==◌, if◌then◌else◌,
}
use payment_apis.Db.{PayoutRow, PayoutAccountRow, PayoutStatus, Currency, Exec, pure, ◌>>=◌}
use payment_apis.Payout.Rows.{insert_account, list_accounts_by_merchant, list_by_merchant}

-- `account_number.slice(-4)` and `.endsWith("0000")`
abbrev pub last_four : List ℕ → List ℕ
last_four [] = []
last_four (c ∷ cs) = if leb (length cs) 3 then c ∷ cs else last_four cs

abbrev pub is_zeros : List ℕ → Bool
is_zeros [] = true
is_zeros (c ∷ cs) = if c == b'0' then is_zeros cs else false

unfoldable pub ends_with_zeros : List ℕ → Bool
ends_with_zeros number = if ltb (length number) 4 then false else is_zeros (last_four number)

-- src/payouts/payout.dto.ts
pub record PublicPayoutAccount : Type 0 where
  pub id : ℕ
  pub currency : Currency
  pub bank_name : String
  pub account_last4 : List ℕ
  pub is_active : Bool
  pub created_at : ℕ

pub record PublicPayout : Type 0 where
  pub id : ℕ
  pub wallet_id : ℕ
  pub payout_account_id : ℕ
  pub currency : Currency
  pub amount : ℕ
  pub status : PayoutStatus
  pub attempts : ℕ
  pub failure_reason : Option String
  pub created_at : ℕ

pub to_public_account : PayoutAccountRow → PublicPayoutAccount
to_public_account row = record {
  id = row.id;
  currency = row.currency;
  bank_name = row.bank_name;
  account_last4 = last_four row.account_number;
  is_active = row.is_active;
  created_at = row.created_at;
}

pub to_public_payout : PayoutRow → PublicPayout
to_public_payout row = record {
  id = row.id;
  wallet_id = row.wallet_id;
  payout_account_id = row.payout_account_id;
  currency = row.currency;
  amount = row.amount;
  status = row.status;
  attempts = row.attempts;
  failure_reason = row.failure_reason;
  created_at = row.created_at;
}

-- `registerAccount`, `listAccounts` and `listPayouts`
pub register_account : ℕ → Currency → String → List ℕ → Exec PublicPayoutAccount
register_account merchant_id currency bank_name account_number = do
  row ← insert_account merchant_id currency bank_name account_number
  pure (to_public_account row)

pub list_accounts : ℕ → Exec (List PublicPayoutAccount)
list_accounts merchant_id = do
  rows ← list_accounts_by_merchant merchant_id
  pure (map to_public_account rows)

unfoldable pub list_payouts : ℕ → Exec (List PublicPayout)
list_payouts merchant_id = do rows ← list_by_merchant merchant_id; pure (map to_public_payout rows)
