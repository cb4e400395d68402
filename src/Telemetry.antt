-- ===== src/Telemetry.antt =====
-- src/middleware/request-logger.ts and src/middleware/metrics.ts, in the order of src/app.ts: the lines of the log
-- and the calls of the metrics that a request leaves. What the handlers write to the log in between is left out.
-- pino, prom-client, the events of a response and the rounding of a duration are parameters.
pub mod Lines
pub mod Audit
use Prim.Native.String.{String, ◌++◌ as ◌++ₛ◌}
use text.Mathlib.Text.{◌==◌ as ◌=ₛ◌}
use payment_apis.Prelude.{
  ℕ, zero, suc, ◌-◌, ◌≡◌, Bool, Option, none, some, List, [], ◌∷◌, ◌++◌, any, if◌then◌else◌,
}

-- What the middlewares read of a request.
pub record Incoming : Type 0 where
  pub method : String
  pub url : String
  pub path : String

-- The labels of `httpRequestsTotal` and of `httpRequestDuration`. The status is a number here, not its text.
pub record Labels : Type 0 where
  pub method : String
  pub route : String
  pub status_code : ℕ

-- The two lines of a request.
pub data Line : Type 0 where
  received : (req_id : ℕ) (method url : String) → Line
  completed : (req_id : ℕ) (method url : String) (status duration_ms : ℕ) → Line

-- The functions that `res.on("finish", …)` registers, with what they close over.
pub data Listener : Type 0 where
  completing : (req_id start : ℕ) (r : Incoming) → Listener
  counting : (r : Incoming) → Listener

-- The stream of `randomUUID`, the log, and the calls of `httpRequestsTotal.inc` and of `endTimer`, the last first.
pub record Telemetry : Type 0 where
  pub uuid : ℕ → ℕ
  pub drawn : ℕ
  pub lines : List Line
  pub counted : List Labels
  pub observed : List Labels

-- SILENT_PATHS and SKIP
abbrev pub silent_paths : List String
silent_paths = "/health" ∷ "/metrics" ∷ []

abbrev pub skip : List String
skip = "/metrics" ∷ "/health" ∷ []

abbrev pub has : List String → String → Bool
has paths path = any (λ p. p =ₛ path) paths

-- `requestLogger`, up to `next()`: the listener that it registers.
unfoldable pub request_logger : ℕ → Incoming → Telemetry → List Listener × Telemetry
request_logger start r t =
    let request_id = t.uuid t.drawn in
    let named = record t { drawn = suc t.drawn } in
    if has silent_paths r.path then ([], named) else (
      completing request_id start r ∷ [],
      record named { lines = received request_id r.method r.url ∷ t.lines },
    )

-- `metricsMiddleware`, up to `next()`
unfoldable pub metrics_middleware : Incoming → List Listener
metrics_middleware r = if has skip r.path then [] else counting r ∷ []

-- What the listeners read when the response has been sent: `req.url`, which a router's mount has
-- shortened, `req.baseUrl` and `req.route.path` where a route matched,
-- `res.statusCode`, and the clock.
pub record Sent : Type 0 where
  pub url : String
  pub route : Option (String × String)
  pub status : ℕ
  pub at : ℕ

abbrev pub route_of : Option (String × String) → String
route_of none = "unknown"
route_of (some (base_url, path)) = base_url ++ₛ path

abbrev pub labels_of : Sent → Incoming → Labels
labels_of sent r = record {
  method = r.method;
  route = route_of sent.route;
  status_code = sent.status;
}

module _ (round_ms : ℕ → ℕ) where
  -- The listener of `requestLogger`
  abbrev pub log_completed : Sent → ℕ → ℕ → Incoming → Telemetry → Telemetry
  log_completed sent req_id start r t = record t {
    lines = completed req_id r.method sent.url sent.status (round_ms (sent.at - start)) ∷ t.lines;
  }

  -- The listener of `metricsMiddleware`
  abbrev pub count_request : Sent → Incoming → Telemetry → Telemetry
  count_request sent r t = record t {
    counted = labels_of sent r ∷ t.counted;
    observed = labels_of sent r ∷ t.observed;
  }

  unfoldable pub heard : Sent → Listener → Telemetry → Telemetry
  heard sent (completing req_id start r) t = log_completed sent req_id start r t
  heard sent (counting r) t = count_request sent r t

  -- `res.emit("finish")`
  unfoldable pub finish : Sent → List Listener → Telemetry → Telemetry
  finish sent [] t = t
  finish sent (l ∷ ls) t = finish sent ls (heard sent l t)

-- The process: what it has recorded, the listeners of each response that is not sent yet, and of those whose
-- connection was closed before.
pub record World : Type 0 where
  pub telemetry : Telemetry
  pub pending : List (List Listener)
  pub dropped : List (List Listener)

-- A request passes both middlewares.
unfoldable pub arrive : ℕ → Incoming → World → World
arrive start r w =
    let (logging, telemetry) = request_logger start r w.telemetry in
    record w { telemetry = telemetry; pending = (logging ++ metrics_middleware r) ∷ w.pending }

-- A request arrives, one of the pending responses is sent, or one is dropped.
pub data Step (round_ms : ℕ → ℕ) (w : World) : World → Type 0 where
  arrives : (start : ℕ) (r : Incoming) → Step round_ms w (arrive start r w)
  finishes :
      (sent : Sent) (ls : List Listener) (before after : List (List Listener))
      → w.pending ≡ before ++ ls ∷ after
      → Step round_ms w
          (record w { telemetry = finish round_ms sent ls w.telemetry; pending = before ++ after })
  closes :
      (ls : List Listener) (before after : List (List Listener))
      → w.pending ≡ before ++ ls ∷ after
      → Step round_ms w (record w { pending = before ++ after; dropped = ls ∷ w.dropped })

-- A process that starts.
abbrev pub started : (ℕ → ℕ) → World
started uuid = record {
  telemetry = record { uuid = uuid; drawn = 0; lines = []; counted = []; observed = [] };
  pending = [];
  dropped = [];
}

pub data Reach (round_ms : ℕ → ℕ) (w : World) : World → Type 0 where
  here : Reach round_ms w w
  next :
      {mid after : World} → Reach round_ms w mid → Step round_ms mid after → Reach round_ms w after
