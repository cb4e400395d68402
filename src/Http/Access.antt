-- ===== src/Http/Access.antt =====
-- The routes of src/*/*.routes.ts and the mounts of src/app.ts on a request without a valid token.
use Prim.Native.String.{String}
use payment_apis.Prelude.{ℕ, ◌≡◌, ◌≢◌, refl, Bool, true, false, not, Option, none, some, arith}
use payment_apis.Errors.{plain, app as app_error}
use payment_apis.Db.{Db, ok, Exec}
use payment_apis.Auth.{AuthTokenPayload, decoded, bearer_token, authenticate}
use payment_apis.Auth.Refusal.{IsUnauthorized, authenticate-refuses}
use payment_apis.Idempotency.{Response}
use payment_apis.Http.{error_handler, respond}
use payment_apis.Http.App.{
  Endpoint, api, test_sink, test_alerts, metrics, health, mounted, app, app-malformed,
}
use payment_apis.Http.Routes.{
  Environment, Route, auth, wallets, transfers, payment_intents, payouts, webhooks, get_me,
  post_register, post_login, get_wallets, get_payment_intents, get_accounts, get_payouts,
  get_endpoints, post_wallets, post_payment_intents, post_accounts, post_endpoints,
  get_payment_intent, post_confirm, post_cancel, post_run, post_transfers, authenticated,
  auth_router, wallet_router, transfer_router, payment_router, payout_router, webhook_router, serve,
}

-- The routes for those who have no token yet.
abbrev pub is_open : Route → Bool
is_open (auth (post_register body)) = true
is_open (auth (post_login body)) = true
is_open (auth get_me) = false
is_open (wallets route) = false
is_open (transfers route) = false
is_open (payment_intents route) = false
is_open (payouts route) = false
is_open (webhooks route) = false

authenticated-refuses :
    (env : Environment) (authorization : Option String) (rest : ℕ → Exec Response) (db : Db)
    → IsUnauthorized (authenticate env.libraries env.clock authorization)
    → (response : Response) × (authenticated env authorization rest db ≡ (ok response, db))
      × (response.status ≡ 401)
unfolding authenticated respond error_handler
authenticated-refuses env authorization rest db (e, refused, status) =
    (error_handler env.server (app_error e), rw refused refl, status)

refused :
    (env : Environment) (authorization : Option String)
    → ((token : String) (payload : AuthTokenPayload)
        → bearer_token env.libraries authorization ≡ ok token
        → env.libraries.verify token env.libraries.secret env.clock ≢ decoded payload)
    → IsUnauthorized (authenticate env.libraries env.clock authorization)
refused env authorization never = authenticate-refuses env.libraries env.clock authorization never

-- The routers.
pub serve-refuses :
    (env : Environment) (authorization : Option String) (route : Route) (db : Db)
    → is_open route ≡ false
    → ((token : String) (payload : AuthTokenPayload)
        → bearer_token env.libraries authorization ≡ ok token
        → env.libraries.verify token env.libraries.secret env.clock ≢ decoded payload)
    → (response : Response) × (serve env authorization route db ≡ (ok response, db))
      × (response.status ≡ 401)
unfolding serve auth_router wallet_router transfer_router payment_router payout_router
    webhook_router
serve-refuses env authorization (auth (post_register body)) db closed never = cc
serve-refuses env authorization (auth (post_login body)) db closed never = cc
serve-refuses env authorization (auth get_me) db closed never =
    authenticated-refuses env authorization _ db (refused env authorization never)
serve-refuses env authorization (wallets (post_wallets body)) db closed never =
    authenticated-refuses env authorization _ db (refused env authorization never)
serve-refuses env authorization (wallets get_wallets) db closed never =
    authenticated-refuses env authorization _ db (refused env authorization never)
serve-refuses env authorization (transfers (post_transfers idempotency_key body)) db closed never =
    authenticated-refuses env authorization _ db (refused env authorization never)
serve-refuses env authorization (payment_intents (post_payment_intents body)) db closed never =
    authenticated-refuses env authorization _ db (refused env authorization never)
serve-refuses env authorization (payment_intents get_payment_intents) db closed never =
    authenticated-refuses env authorization _ db (refused env authorization never)
serve-refuses env authorization (payment_intents (get_payment_intent id)) db closed never =
    authenticated-refuses env authorization _ db (refused env authorization never)
serve-refuses env authorization (payment_intents (post_confirm id)) db closed never =
    authenticated-refuses env authorization _ db (refused env authorization never)
serve-refuses env authorization (payment_intents (post_cancel id)) db closed never =
    authenticated-refuses env authorization _ db (refused env authorization never)
serve-refuses env authorization (payouts (post_accounts body)) db closed never =
    authenticated-refuses env authorization _ db (refused env authorization never)
serve-refuses env authorization (payouts get_accounts) db closed never =
    authenticated-refuses env authorization _ db (refused env authorization never)
serve-refuses env authorization (payouts get_payouts) db closed never =
    authenticated-refuses env authorization _ db (refused env authorization never)
serve-refuses env authorization (payouts post_run) db closed never =
    authenticated-refuses env authorization _ db (refused env authorization never)
serve-refuses env authorization (webhooks (post_endpoints body)) db closed never =
    authenticated-refuses env authorization _ db (refused env authorization never)
serve-refuses env authorization (webhooks get_endpoints) db closed never =
    authenticated-refuses env authorization _ db (refused env authorization never)

-- What is mounted with `authenticate` in front.
abbrev pub is_protected : Endpoint → Bool
is_protected (api authorization route) = not (is_open route)
is_protected (test_sink fail) = false
is_protected (test_alerts alerts) = false
is_protected (metrics registry) = false
is_protected (health outage) = false

abbrev pub header_of : Endpoint → Option String
header_of (api authorization route) = authorization
header_of (test_sink fail) = none
header_of (test_alerts alerts) = none
header_of (metrics registry) = none
header_of (health outage) = none

-- The status of a refusal: a body that is not JSON is met before `authenticate`.
abbrev pub refusal : Option String → ℕ
refusal none = 401
refusal (some text) = 500

-- A request to the app, to any endpoint but registration, login, the two sinks, /metrics and /health, changes nothing
-- and is answered with 401, or with 500 if its body is not JSON, when the token that its Authorization header
-- carries, if it carries one, is none that jsonwebtoken accepts.
pub app-refuses :
    (env : Environment) (malformed : Option String) (endpoint : Endpoint) (db : Db)
    → is_protected endpoint ≡ true
    → ((token : String) (payload : AuthTokenPayload)
        → bearer_token env.libraries (header_of endpoint) ≡ ok token
        → env.libraries.verify token env.libraries.secret env.clock ≢ decoded payload)
    → (response : Response) × (app env malformed endpoint db ≡ (ok response, db))
      × (response.status ≡ refusal malformed)
unfolding app mounted respond error_handler
app-refuses env (some text) endpoint db closed never =
    (error_handler env.server (plain text), app-malformed env text endpoint db, refl)
app-refuses env none (api authorization route) db closed never =
    let (response, answered, status) =
      serve-refuses env authorization route db (ground arith) never in
    (response, rw answered refl, status)
app-refuses env none (test_sink fail) db closed never = cc
app-refuses env none (test_alerts alerts) db closed never = cc
app-refuses env none (metrics registry) db closed never = cc
app-refuses env none (health outage) db closed never = cc
