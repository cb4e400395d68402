-- ===== src/Errors.antt =====
-- src/errors.ts: the domain errors. Each class is a constructor of `AppError`, with the arguments
-- of its constructor; `code`, `message` and `status_code` are what its `super(...)` call passes on.
-- The failures that PostgreSQL itself reports stand beside them, under the names of their SQLSTATE codes.
use Prim.Native.String.{String, ◌++◌}
use payment_apis.Prelude.{ℕ}

pub data AppError : Type 0 where
  email_already_exists invalid_credentials : AppError
  validation : (details : String) → AppError
  unauthorized : (message : String) → AppError
  wallet_already_exists : (currency : String) → AppError
  wallet_not_found : (which : String) → AppError
  forbidden : (message : String) → AppError
  currency_mismatch insufficient_funds concurrency_conflict : AppError
  payment_intent_not_found : AppError
  invalid_state_transition : (status action : String) → AppError
  no_wallet_for_currency : (currency : String) → AppError
  idempotency_key_required idempotency_key_reuse idempotency_in_progress : AppError
  invalid_token expired_token : AppError

-- `AppError.statusCode`
unfoldable pub status_code : AppError → ℕ
status_code AppError.email_already_exists = 409
status_code (AppError.validation details) = 400
status_code AppError.invalid_credentials = 401
status_code (AppError.unauthorized message) = 401
status_code (AppError.wallet_already_exists currency) = 409
status_code (AppError.wallet_not_found which) = 404
status_code (AppError.forbidden message) = 403
status_code AppError.currency_mismatch = 400
status_code AppError.insufficient_funds = 422
status_code AppError.concurrency_conflict = 409
status_code AppError.payment_intent_not_found = 404
status_code (AppError.invalid_state_transition status action) = 409
status_code (AppError.no_wallet_for_currency currency) = 422
status_code AppError.idempotency_key_required = 400
status_code AppError.idempotency_key_reuse = 422
status_code AppError.idempotency_in_progress = 409
status_code AppError.invalid_token = 401
status_code AppError.expired_token = 401

-- `AppError.code`
pub code : AppError → String
code AppError.email_already_exists = "email_already_registered"
code (AppError.validation details) = "invalid_request"
code AppError.invalid_credentials = "invalid_credentials"
code (AppError.unauthorized message) = "unauthorized"
code (AppError.wallet_already_exists currency) = "wallet_already_exists"
code (AppError.wallet_not_found which) = "wallet_not_found"
code (AppError.forbidden message) = "forbidden"
code AppError.currency_mismatch = "currency_mismatch"
code AppError.insufficient_funds = "insufficient_funds"
code AppError.concurrency_conflict = "concurrency_conflict"
code AppError.payment_intent_not_found = "payment_intent_not_found"
code (AppError.invalid_state_transition status action) = "invalid_state_transition"
code (AppError.no_wallet_for_currency currency) = "no_wallet_for_currency"
code AppError.idempotency_key_required = "idempotency_key_required"
code AppError.idempotency_key_reuse = "idempotency_key_reuse"
code AppError.idempotency_in_progress = "idempotency_in_progress"
code AppError.invalid_token = "invalid_token"
code AppError.expired_token = "token_expired"

-- The text that `super(...)` hands to `Error`.
pub message : AppError → String
message AppError.email_already_exists = "A merchant with this email already exists"
message (AppError.validation details) = "The request data is invalid"
message AppError.invalid_credentials = "Invalid email or password"
message (AppError.unauthorized text) = text
message (AppError.wallet_already_exists currency) =
    "A " ++ currency ++ " wallet already exists for this merchant"
message (AppError.wallet_not_found which) = "The " ++ which ++ " wallet was not found"
message (AppError.forbidden text) = text
message AppError.currency_mismatch = "Cannot transfer between wallets of different currencies"
message AppError.insufficient_funds = "The source wallet has insufficient funds"
message AppError.concurrency_conflict = "The wallet was modified concurrently; please retry"
message AppError.payment_intent_not_found = "Payment intent not found"
message (AppError.invalid_state_transition status action) =
    "Cannot " ++ action ++ " a payment intent in status \"" ++ status ++ "\""
message (AppError.no_wallet_for_currency currency) =
    "You need a " ++ currency ++ " wallet to accept payments in " ++ currency
message AppError.idempotency_key_required = "An Idempotency-Key header is required"
message AppError.idempotency_key_reuse =
    "This Idempotency-Key was already used with different parameters"
message AppError.idempotency_in_progress =
    "A request with this Idempotency-Key is already in progress"
message AppError.invalid_token = "Invalid authentication token"
message AppError.expired_token = "Authentication token has expired"

-- What a statement can fail with: 23505, 23514, 23503, 22003 and 22P02.
pub data DbError : Type 0 where
  unique_violation check_violation foreign_key_violation out_of_range invalid_text_representation :
      DbError

-- What a call can throw: an AppError, an error of the database, or a plain `new Error(message)`.
pub data Error : Type 0 where
  app : AppError → Error
  db_error : DbError → Error
  plain : (message : String) → Error
