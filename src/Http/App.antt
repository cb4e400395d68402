-- ===== src/Http/App.antt =====
-- The middlewares and the mounts of src/app.ts around the routers: express.json, the sinks, /metrics, /health and
-- the error handler. The lines that the sinks write to the log are left out.
use Prim.Native.String.{String}
use text.Mathlib.Text.{◌==◌ as ◌=ₛ◌}
use payment_apis.Prelude.{ℕ, ◌≡◌, refl, Bool, true, false, not, Option, none, some}
use payment_apis.Errors.{Error, plain}
use payment_apis.Db.{Db, Void, Result, ok, err, Exec, pure, lift, handle, ◌>>◌}
use payment_apis.Idempotency.{Response}
use payment_apis.Http.{sink_body, alerts_body, health_body, error_handler, respond}
use payment_apis.Http.Controllers.{send}
use payment_apis.Http.Routes.{Environment, Route, serve}

-- What the app mounts, with what its handlers read: `req.query.fail`, the length of `req.body.alerts`, the text
-- of the registry, and the error of `SELECT 1`.
pub data Endpoint : Type 0 where
  api : (authorization : Option String) → Route → Endpoint
  test_sink : (fail : Option String) → Endpoint
  test_alerts : (alerts : Option ℕ) → Endpoint
  metrics : (registry : String) → Endpoint
  health : (outage : Option Error) → Endpoint

-- A parameter of the query, as a condition.
abbrev pub truthy : Option String → Bool
truthy none = false
truthy (some s) = not (s =ₛ "")

-- `alerts.length`, of `req.body?.alerts ?? []`
abbrev pub length_of : Option ℕ → ℕ
length_of none = 0
length_of (some n) = n

module _ (env : Environment) where
  -- `app.post("/test/sink", …)`
  pub sink : Bool → Exec Response
  sink true = send env.server 500 (sink_body false)
  sink false = send env.server 200 (sink_body true)

  -- `app.get("/health", …)`
  pub health_of : Option Error → Exec Response
  health_of none = send env.server 200 (health_body true)
  health_of (some e) = send env.server 500 (health_body false)

  unfoldable pub mounted : Endpoint → Exec Response
  mounted (api authorization route) = serve env authorization route
  mounted (test_sink fail) = sink (truthy fail)
  mounted (test_alerts alerts) = send env.server 200 (alerts_body (length_of alerts))
  mounted (metrics registry) = pure (record { status = 200; body = registry })
  mounted (health outage) = health_of outage

  -- `express.json()`: the text of the error that it passes on for a body that is not JSON.
  abbrev pub express_json : Option String → Result Void
  express_json none = ok tt
  express_json (some text) = err (plain text)

  -- `app`, without the two middlewares of Telemetry.
  unfoldable pub app : Option String → Endpoint → Exec Response
  app malformed endpoint = respond env.server (lift (express_json malformed) >> mounted endpoint)

  -- Whatever a handler does, there is an answer.
  pub respond-answers :
      (handler : Exec Response) (db : Db)
      → (response : Response) × ((respond env.server handler db).0 ≡ ok response)
  unfolding respond
  respond-answers handler db = answered (handler db)
    where
      answered :
          (r : Result Response × Db)
          → (response : Response) × ((handle (λ e. pure (error_handler env.server e)) r).0
              ≡ ok response)
      answered (ok response, after) = (response, refl)
      answered (err e, after) = (error_handler env.server e, refl)

  -- Every request is answered.
  pub app-answers :
      (malformed : Option String) (endpoint : Endpoint) (db : Db)
      → (response : Response) × ((app malformed endpoint db).0 ≡ ok response)
  unfolding app
  app-answers malformed endpoint =
      respond-answers (lift (express_json malformed) >> mounted endpoint)

  -- A body that is not JSON is answered as an internal error, whatever it was sent to, and changes nothing.
  pub app-malformed :
      (text : String) (endpoint : Endpoint) (db : Db)
      → app (some text) endpoint db ≡ (ok (error_handler env.server (plain text)), db)
  unfolding app respond
  app-malformed text endpoint db = refl
