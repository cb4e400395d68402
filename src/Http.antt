-- ===== src/Http.antt =====
-- src/middleware/error-handler.ts, and POST /transfers as src/transfers/transfer.routes.ts and
-- transfer.controller.ts put it together, from the idempotency guard on. JSON.stringify is a parameter.
pub mod Retry
pub mod Controllers
pub mod Routes
pub mod Access
pub mod Session
pub mod Schemas
pub mod Posting
pub mod App
use Prim.Native.String.{String}
use payment_apis.Prelude.{ℕ, Bool, Option, none, some, List}
use payment_apis.Errors.{
  AppError, validation, Error, app, db_error, plain, status_code, code, message,
}
use payment_apis.Db.{Db, Exec, pure, recover, ◌>>=◌}
use payment_apis.Transfer.{CreateTransferDto, TransferResult, Others, transfer}
use payment_apis.Auth.{PublicMerchant, AuthResponse}
use payment_apis.Wallet.{PublicWallet}
use payment_apis.Payment.{PublicPaymentIntent, PublicCharge}
use payment_apis.Payout.{PublicPayoutAccount, PublicPayout}
use payment_apis.Webhook.{PublicWebhookEndpoint, RegisteredWebhookEndpoint}
use payment_apis.Idempotency.{Request, Response, idempotency}

-- What the handlers pass to `res.json`.
pub data Body : Type 0 where
  error_body : (error message : String) (details : Option String) → Body
  internal_error : (request_id : String) → Body
  transfer_body : TransferResult → Body
  merchant_body : PublicMerchant → Body
  auth_body : AuthResponse → Body
  wallet_body : PublicWallet → Body
  wallets_body : List PublicWallet → Body
  payment_intent_body : PublicPaymentIntent → Body
  payment_intents_body : List PublicPaymentIntent → Body
  confirmation_body : PublicPaymentIntent → PublicCharge → Body
  account_body : PublicPayoutAccount → Body
  accounts_body : List PublicPayoutAccount → Body
  payouts_body : List PublicPayout → Body
  endpoint_body : RegisteredWebhookEndpoint → Body
  endpoints_body : List PublicWebhookEndpoint → Body
  sink_body : (success : Bool) → Body
  alerts_body : (received : ℕ) → Body
  health_body : (connected : Bool) → Body

-- `AppError.details`
pub details : AppError → Option String
details (validation fields) = some fields
details _ = none

-- What the runtime provides: JSON.stringify, SHA-256, and the request's id.
pub record Server : Type 0 where
  pub stringify : Body → String
  pub sha256 : String → String
  pub request_id : String

module _ (server : Server) where
  unfoldable pub error_handler : Error → Response
  error_handler (app e) = record {
    status = status_code e;
    body = server.stringify (error_body (code e) (message e) (details e));
  }
  error_handler (db_error e) = record {
    status = 500;
    body = server.stringify (internal_error server.request_id);
  }
  error_handler (plain text) = record {
    status = 500;
    body = server.stringify (internal_error server.request_id);
  }

  -- What asyncHandler and the error handler make of a throw.
  unfoldable pub respond : Exec Response → Exec Response
  respond handler = recover handler (λ e. pure (error_handler e))

  -- `transferController.create`
  unfoldable pub create : (ℕ → Others) → ℕ → CreateTransferDto → Exec Response
  create others merchant_id dto = do
    result ← transfer others merchant_id dto
    pure (record { status = 201; body = server.stringify (transfer_body result) })

  -- POST /transfers
  unfoldable pub post_transfer :
      (Db → Db) → (ℕ → Others) → Request → CreateTransferDto → Exec Response
  post_transfer before_select others req dto =
      respond
        (idempotency server.sha256 before_select req (respond (create others req.merchant_id dto)))
