-- ===== src/Http/Routes.antt =====
-- The routers of src/*/*.routes.ts, with src/middleware/validate.ts: what each route runs in front of its
-- controller. The zod schemas are parameters, as is all that the runtime and other sessions provide.
use Prim.Native.String.{String}
use payment_apis.Prelude.{ℕ, Option}
use payment_apis.Errors.{Error, DbError, app, validation}
use payment_apis.Db.{Db, Currency, Result, ok, err, Exec, lift, ◌>>=◌}
use payment_apis.Auth.{Libraries, RegisterDto, LoginDto, authenticate}
use payment_apis.Transfer.{CreateTransferDto, Others}
use payment_apis.Payment.{CreatePaymentIntentDto}
use payment_apis.Idempotency.{Request, Response}
use payment_apis.Http.{Server, respond, post_transfer}
use payment_apis.Http.Controllers.{
  RegisterPayoutAccountDto, auth_register, auth_login, auth_me, wallet_create, wallet_list,
  payment_create, payment_list, payment_get, payment_confirm, payment_cancel,
  payout_register_account, payout_list_accounts, payout_list, payout_run_now,
  webhook_register_endpoint, webhook_list_endpoints,
}

-- What zod's `safeParse` returns: the parsed data, or the JSON text of the field errors.
pub data SafeParse (A : Type 0) : Type 0 where
  success : A → SafeParse A
  failure : (field_errors : String) → SafeParse A

abbrev pub parsed : {A : Type 0} → SafeParse A → Result A
parsed (success data_) = ok data_
parsed (failure field_errors) = err (app (validation field_errors))

-- `validateBody(schema)`
unfoldable pub validate_body : {A : Type 0} → (String → SafeParse A) → String → Result A
validate_body safe_parse body = parsed (safe_parse body)

-- The schemas of src/*/*.dto.ts, on the text of a body.
pub record Schemas : Type 0 where
  pub register : String → SafeParse RegisterDto
  pub login : String → SafeParse LoginDto
  pub create_wallet : String → SafeParse Currency
  pub create_transfer : String → SafeParse CreateTransferDto
  pub create_payment_intent : String → SafeParse CreatePaymentIntentDto
  pub register_payout_account : String → SafeParse RegisterPayoutAccountDto
  pub register_endpoint : String → SafeParse String

-- What a request meets: the runtime, the clock, random texts, and what other sessions do.
pub record Environment : Type 0 where
  pub server : Server
  pub libraries : Libraries
  pub schemas : Schemas
  pub clock : ℕ
  pub salt : String
  pub random_hex : String
  pub transfer_text : CreateTransferDto → String
  pub before_select : Db → Db
  pub during_transfer : ℕ → Others
  pub db_message : DbError → String
  pub during_payouts : ℕ → Db → Db
  pub outages : ℕ → Option Error
  pub min_amount : ℕ

-- The routes of each router, with what they read of the request besides the Authorization header.
pub data AuthRoute : Type 0 where
  post_register post_login : (body : String) → AuthRoute
  get_me : AuthRoute

pub data WalletRoute : Type 0 where
  post_wallets : (body : String) → WalletRoute
  get_wallets : WalletRoute

pub data TransferRoute : Type 0 where
  post_transfers : (idempotency_key : Option String) (body : String) → TransferRoute

pub data PaymentRoute : Type 0 where
  post_payment_intents : (body : String) → PaymentRoute
  get_payment_intents : PaymentRoute
  get_payment_intent post_confirm post_cancel : (id : ℕ) → PaymentRoute

pub data PayoutRoute : Type 0 where
  post_accounts : (body : String) → PayoutRoute
  get_accounts get_payouts post_run : PayoutRoute

pub data WebhookRoute : Type 0 where
  post_endpoints : (body : String) → WebhookRoute
  get_endpoints : WebhookRoute

-- The mounts of the six routers in src/app.ts. Http/App has the others.
pub data Route : Type 0 where
  auth : AuthRoute → Route
  wallets : WalletRoute → Route
  transfers : TransferRoute → Route
  payment_intents : PaymentRoute → Route
  payouts : PayoutRoute → Route
  webhooks : WebhookRoute → Route

module _ (env : Environment) where
  -- `authenticate` in front of the rest of a pipeline; what either throws goes to the error handler.
  unfoldable pub authenticated : Option String → (ℕ → Exec Response) → Exec Response
  authenticated authorization rest =
      respond env.server
        (do who ← lift (authenticate env.libraries env.clock authorization); rest who.sub)

  -- `validateBody(schema)` in front of a controller.
  unfoldable pub validated :
      {A : Type 0} → (String → SafeParse A) → String → (A → Exec Response) → Exec Response
  validated schema body controller = do dto ← lift (validate_body schema body); controller dto

  abbrev pub transfer_request : ℕ → Option String → CreateTransferDto → Request
  transfer_request merchant_id idempotency_key dto = record {
    merchant_id = merchant_id;
    method = "POST";
    original_url = "/transfers";
    body = env.transfer_text dto;
    idempotency_key = idempotency_key;
  }

  unfoldable pub auth_router : Option String → AuthRoute → Exec Response
  auth_router authorization (post_register body) =
      respond env.server
        (validated env.schemas.register body (auth_register env.server env.libraries env.salt))
  auth_router authorization (post_login body) =
      respond env.server
        (validated env.schemas.login body (auth_login env.server env.libraries env.clock))
  auth_router authorization get_me = authenticated authorization (λ m. auth_me env.server m)

  unfoldable pub wallet_router : Option String → WalletRoute → Exec Response
  wallet_router authorization (post_wallets body) =
      authenticated authorization
        (λ m. validated env.schemas.create_wallet body (wallet_create env.server m))
  wallet_router authorization get_wallets =
      authenticated authorization (λ m. wallet_list env.server m)

  unfoldable pub transfer_router : Option String → TransferRoute → Exec Response
  transfer_router authorization (post_transfers idempotency_key body) =
      authenticated authorization (λ m. validated env.schemas.create_transfer body (λ dto.
        post_transfer env.server env.before_select env.during_transfer
          (transfer_request m idempotency_key dto) dto))

  unfoldable pub payment_router : Option String → PaymentRoute → Exec Response
  payment_router authorization (post_payment_intents body) =
      authenticated authorization
        (λ m. validated env.schemas.create_payment_intent body (payment_create env.server m))
  payment_router authorization get_payment_intents =
      authenticated authorization (λ m. payment_list env.server m)
  payment_router authorization (get_payment_intent id) =
      authenticated authorization (λ m. payment_get env.server m id)
  payment_router authorization (post_confirm id) =
      authenticated authorization (λ m. payment_confirm env.server m id)
  payment_router authorization (post_cancel id) =
      authenticated authorization (λ m. payment_cancel env.server m id)

  unfoldable pub payout_router : Option String → PayoutRoute → Exec Response
  payout_router authorization (post_accounts body) = authenticated authorization (λ m.
      validated env.schemas.register_payout_account body (payout_register_account env.server m))
  payout_router authorization get_accounts =
      authenticated authorization (λ m. payout_list_accounts env.server m)
  payout_router authorization get_payouts =
      authenticated authorization (λ m. payout_list env.server m)
  payout_router authorization post_run = authenticated authorization (λ m.
      payout_run_now env.server env.db_message env.during_payouts env.outages env.min_amount m)

  unfoldable pub webhook_router : Option String → WebhookRoute → Exec Response
  webhook_router authorization (post_endpoints body) = authenticated authorization (λ m.
      validated env.schemas.register_endpoint body
        (webhook_register_endpoint env.server env.random_hex m))
  webhook_router authorization get_endpoints =
      authenticated authorization (λ m. webhook_list_endpoints env.server m)

  -- The routers, on a body that express.json has taken. Http/App has what is in front of them.
  unfoldable pub serve : Option String → Route → Exec Response
  serve authorization (auth route) = auth_router authorization route
  serve authorization (wallets route) = wallet_router authorization route
  serve authorization (transfers route) = transfer_router authorization route
  serve authorization (payment_intents route) = payment_router authorization route
  serve authorization (payouts route) = payout_router authorization route
  serve authorization (webhooks route) = webhook_router authorization route
