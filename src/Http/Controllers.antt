-- ===== src/Http/Controllers.antt =====
-- The controllers of src/*/*.controller.ts, but the one of transfers: each calls its service with the
-- caller's identity and shapes the response.
use Prim.Native.String.{String}
use payment_apis.Prelude.{ℕ, Option, List}
use payment_apis.Errors.{Error, DbError}
use payment_apis.Db.{Db, Currency, Exec, pure, ◌>>=◌}
use payment_apis.Auth.{Libraries, RegisterDto, LoginDto, register, login, get_by_id}
use payment_apis.Wallet.{create as create_wallet, list as list_wallets}
use payment_apis.Payment.{
  CreatePaymentIntentDto, create as create_intent, get as get_intent, list as list_intents,
  confirm as confirm_intent, cancel as cancel_intent,
}
use payment_apis.Payout.{register_account, list_accounts, list_payouts, settle_now}
use payment_apis.Webhook.{register_endpoint, list_endpoints}
use payment_apis.Idempotency.{Response}
use payment_apis.Http.{
  Body, merchant_body, auth_body, wallet_body, wallets_body, payment_intent_body,
  payment_intents_body, confirmation_body, account_body, accounts_body, payouts_body, endpoint_body,
  endpoints_body, Server,
}

-- src/payouts/payout.dto.ts: RegisterPayoutAccountDto
pub record RegisterPayoutAccountDto : Type 0 where
  pub currency : Currency
  pub bank_name : String
  pub account_number : List ℕ

module _ (server : Server) where
  -- `res.status(status).json(body)`
  unfoldable pub send : ℕ → Body → Exec Response
  send status body = pure (record { status = status; body = server.stringify body })

  module _ (libraries : Libraries) where
    -- `authController`
    unfoldable pub auth_register : String → RegisterDto → Exec Response
    auth_register salt dto = do
      merchant ← register libraries salt dto
      send 201 (merchant_body merchant)

    unfoldable pub auth_login : ℕ → LoginDto → Exec Response
    auth_login clock dto = do result ← login libraries clock dto; send 200 (auth_body result)

  unfoldable pub auth_me : ℕ → Exec Response
  auth_me merchant_id = do merchant ← get_by_id merchant_id; send 200 (merchant_body merchant)

  -- `walletController`
  pub wallet_create : ℕ → Currency → Exec Response
  wallet_create merchant_id currency = do
    wallet ← create_wallet merchant_id currency
    send 201 (wallet_body wallet)

  pub wallet_list : ℕ → Exec Response
  wallet_list merchant_id = do wallets ← list_wallets merchant_id; send 200 (wallets_body wallets)

  -- `paymentController`
  pub payment_create : ℕ → CreatePaymentIntentDto → Exec Response
  payment_create merchant_id dto = do
    intent ← create_intent merchant_id dto
    send 201 (payment_intent_body intent)

  pub payment_list : ℕ → Exec Response
  payment_list merchant_id = do
    intents ← list_intents merchant_id
    send 200 (payment_intents_body intents)

  pub payment_get : ℕ → ℕ → Exec Response
  payment_get merchant_id id = do
    intent ← get_intent merchant_id id
    send 200 (payment_intent_body intent)

  pub payment_confirm : ℕ → ℕ → Exec Response
  payment_confirm merchant_id id = do
    result ← confirm_intent merchant_id id
    send 200 (confirmation_body result.0 result.1)

  pub payment_cancel : ℕ → ℕ → Exec Response
  payment_cancel merchant_id id = do
    intent ← cancel_intent merchant_id id
    send 200 (payment_intent_body intent)

  -- `payoutController`
  pub payout_register_account : ℕ → RegisterPayoutAccountDto → Exec Response
  payout_register_account merchant_id dto = do
    account ← register_account merchant_id dto.currency dto.bank_name dto.account_number
    send 201 (account_body account)

  pub payout_list_accounts : ℕ → Exec Response
  payout_list_accounts merchant_id = do
    accounts ← list_accounts merchant_id
    send 200 (accounts_body accounts)

  pub payout_list : ℕ → Exec Response
  payout_list merchant_id = do payouts ← list_payouts merchant_id; send 200 (payouts_body payouts)

  pub payout_run_now :
      (DbError → String) → (ℕ → Db → Db) → (ℕ → Option Error) → ℕ → ℕ → Exec Response
  payout_run_now db_message others outages min_amount merchant_id = do
    payouts ← settle_now db_message others outages min_amount merchant_id
    send 200 (payouts_body payouts)

  -- `webhookController`
  pub webhook_register_endpoint : String → ℕ → String → Exec Response
  webhook_register_endpoint random_hex merchant_id url = do
    endpoint ← register_endpoint random_hex merchant_id url
    send 201 (endpoint_body endpoint)

  pub webhook_list_endpoints : ℕ → Exec Response
  webhook_list_endpoints merchant_id = do
    endpoints ← list_endpoints merchant_id
    send 200 (endpoints_body endpoints)
