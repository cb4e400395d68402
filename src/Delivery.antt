-- ===== src/Delivery.antt =====
-- src/webhook-worker.ts: the worker that drains the outbox over HTTP. What `fetch` answers, the HMAC
-- of node:crypto and JSON's texts are parameters.
mod Events
pub mod Outcome
pub mod Attempts
pub use Events.*
unfoldable pub use Events.{
  find_by_id, mark_delivered, mark_retry, mark_failed, claim_due, claim_for_publishing,
  mark_published, reset_to_pending, reap_stale_publishing,
}
use Prim.Native.String.{String, ◌++◌}
use payment_apis.Prelude.{
  ℕ, suc, ◌-◌, ◌*◌, ◌^◌, min, Bool, ◌&&◌, Option, none, some, List, [], ◌∷◌, ltb, leb,
  if◌then◌else◌,
}
use payment_apis.Db.{WebhookEndpointRow, WebhookEventRow, EventData, Void, Exec, pure, ◌>>=◌, ◌>>◌}

abbrev pub max_attempts : ℕ
max_attempts = 5

abbrev pub batch_size : ℕ
batch_size = 10

-- `backoffSeconds`
unfoldable pub backoff_seconds : ℕ → ℕ
backoff_seconds attempt = min (5 * 2 ^ (attempt - 1)) 300

-- What `fetch` comes to: a response with its status, or a throw with its message.
pub data Answer : Type 0 where
  response : (status : ℕ) → Answer
  thrown : (message : String) → Answer

-- The arguments of the POST that `deliverOne` varies.
pub record Post : Type 0 where
  pub url : String
  pub event_type : String
  pub signature : String
  pub body : String

-- `res.ok`
abbrev pub is_ok : ℕ → Bool
is_ok status = leb 200 status && ltb status 300

-- The texts that the runtime makes: JSON.stringify of `{ type, data }`, `signPayload`, and a number
-- in a template.
pub record Runtime : Type 0 where
  pub stringify : String → EventData → String
  pub sign_payload : (secret body : String) → String
  pub decimal : ℕ → String

-- The `catch` of `deliverOne`.
pub on_failure : WebhookEventRow → String → Exec Void
on_failure event message =
    let attempt = suc event.attempts in
    if leb max_attempts attempt
    then mark_failed event.id attempt message
    else mark_retry event.id attempt (backoff_seconds attempt) message

module _ (runtime : Runtime) where
  pub on_answer : WebhookEventRow → Answer → Exec Void
  on_answer event (response status) =
      if is_ok status
      then mark_delivered event.id
      else on_failure event ("non-2xx response: " ++ runtime.decimal status)
  on_answer event (thrown message) = on_failure event message

  pub post_of : WebhookEventRow → WebhookEndpointRow → Post
  post_of event endpoint =
      let body = runtime.stringify event.event_type event.payload in
      record {
        url = endpoint.url;
        event_type = event.event_type;
        signature = runtime.sign_payload endpoint.secret body;
        body = body;
      }

  pub deliver_to : (Post → Answer) → WebhookEventRow → Option WebhookEndpointRow → Exec Void
  deliver_to fetch event none = mark_failed event.id (suc event.attempts) "endpoint deleted"
  deliver_to fetch event (some endpoint) = on_answer event (fetch (post_of event endpoint))

  -- `deliverOne`
  pub deliver_one : (Post → Answer) → WebhookEventRow → Exec Void
  deliver_one fetch event = do
    endpoint ← find_by_id event.endpoint_id
    deliver_to fetch event endpoint

  -- `Promise.all(events.map(deliverOne))`, in one of its orders: each writes the row of its own event.
  pub deliver_all : (ℕ → Post → Answer) → ℕ → List WebhookEventRow → Exec Void
  deliver_all fetch n [] = pure tt
  deliver_all fetch n (event ∷ events) = do
    deliver_one (fetch n) event
    deliver_all fetch (suc n) events

  -- `tick`
  pub tick : (ℕ → Post → Answer) → Exec Void
  tick fetch = do events ← claim_due batch_size 60; deliver_all fetch 0 events
