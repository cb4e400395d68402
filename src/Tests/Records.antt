-- ===== src/Tests/Records.antt =====
-- A process that logs and counts two requests and a dropped one.
use Prim.Native.String.{String}
use payment_apis.Prelude.{ℕ, ◌≡◌, refl, some, List, [], ◌∷◌, map}
use payment_apis.Telemetry.{
  Incoming, Listener, World, Labels, received, completed, completing, counting, request_logger,
  metrics_middleware, heard, finish, arrive, arrives, finishes, closes, started, Reach, here, next,
}
use payment_apis.Telemetry.Audit.{IsAudited, Reach-IsAudited}

abbrev get : String → Incoming
get path = record { method = "GET"; url = path; path = path }

abbrev sequence : ℕ → ℕ
sequence n = n

abbrev watched : ℕ → ℕ → String → List Listener
watched id start path = completing id start (get path) ∷ counting (get path) ∷ []

-- Two requests and a health check arrive; the second request is dropped, and the others are answered.
abbrev crowd : World
crowd =
    arrive 20 (get "/payouts")
      (arrive 15 (get "/health") (arrive 10 (get "/wallets") (started sequence)))

abbrev thinned : World
thinned = record crowd {
  pending = [] ∷ watched 0 10 "/wallets" ∷ [];
  dropped = watched 2 20 "/payouts" ∷ [];
}

abbrev last : World
last = record thinned {
  telemetry =
      finish sequence (record { url = "/"; route = some ("/wallets", "/"); status = 200; at = 40 })
        (watched 0 10 "/wallets") thinned.telemetry;
  pending = [] ∷ [];
}

run : Reach sequence (started sequence) last
unfolding arrive request_logger metrics_middleware
run =
    next
      (next
        (next (next (next here (arrives 10 (get "/wallets"))) (arrives 15 (get "/health")))
          (arrives 20 (get "/payouts")))
        (closes (watched 2 20 "/payouts") [] ([] ∷ watched 0 10 "/wallets" ∷ []) refl))
      (finishes (record { url = "/"; route = some ("/wallets", "/"); status = 200; at = 40 })
        (watched 0 10 "/wallets") ([] ∷ []) [] refl)

lines :
    last.telemetry.lines
    ≡ completed 0 "GET" "/" 200 30 ∷ received 2 "GET" "/payouts" ∷ received 0 "GET" "/wallets" ∷ []
unfolding arrive request_logger metrics_middleware finish heard
lines = refl

routes : map (λ (l : Labels). l.route) last.telemetry.counted ≡ "/wallets/" ∷ []
unfolding arrive request_logger metrics_middleware finish heard
routes = refl

Reach-IsAudited_example : IsAudited last
Reach-IsAudited_example = Reach-IsAudited sequence sequence run
