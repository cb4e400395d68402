-- ===== src/Rabbit.antt =====
-- src/rabbit-worker.ts: the relay from the outbox to RabbitMQ, and the consumer that delivers. What
-- `fetch` answers and what the broker confirms are arguments; so is what runs in the process while the
-- relay waits for the broker.
mod Broker
pub mod Steps
pub mod Tracking
pub mod Consumer
pub mod Safety
pub mod Race
pub mod Loss
pub mod Stuck
pub mod Stays
pub mod Forever
pub use Broker.*
use Prim.Native.String.{String, ◌++◌ as ◌++ₛ◌}
use payment_apis.Prelude.{
  ℕ, suc, ◌-◌, ◌++◌, ◌*◌, ◌^◌, min, Option, none, some, List, [], ◌∷◌, map, take, leb,
  if◌then◌else◌,
}
use payment_apis.Errors.{Error}
use payment_apis.Db.{Db, Void, WebhookEndpointRow, WebhookEventRow}
use payment_apis.Delivery.{
  Answer, response, thrown, Post, Runtime, is_ok, find_by_id, claim_for_publishing, mark_published,
  reset_to_pending, reap_stale_publishing, mark_delivered, mark_failed,
}

-- PUBLISHING_STALE_SECONDS, RELAY_BATCH and MAX_ATTEMPTS
abbrev pub publishing_stale_seconds : ℕ
publishing_stale_seconds = 30

abbrev pub relay_batch : ℕ
relay_batch = 20

abbrev pub max_attempts : ℕ
max_attempts = 5

-- `backoffMs`
pub backoff_ms : ℕ → ℕ
backoff_ms attempt = min (5_000 * 2 ^ (attempt - 1)) 300_000

-- The message that the relay publishes for a row, with its `x-attempts` header.
pub message_of : WebhookEventRow → Message
message_of row = record {
  outbox_id = row.id;
  endpoint_id = row.endpoint_id;
  event_type = row.event_type;
  payload = row.payload;
  attempts = some 1;
}

-- How the publishing ends: the broker confirms all messages, or the wait for it throws after the
-- broker took the first few of them.
pub data Confirms : Type 0 where
  confirmed : Confirms
  lost : (taken : ℕ) → Confirms

-- Phases 2 and 3 of `relayTick`, on the rows claimed.
pub publish_rows : (World → World) → Confirms → List WebhookEventRow → Act Void
publish_rows during confirmed rows = do
  change (on_deliver (λ queue. queue ++ map message_of rows))
  change during
  on_db (mark_published (map (λ row. row.id) rows))
publish_rows during (lost taken) rows = do
  change (on_deliver (λ queue. queue ++ take taken (map message_of rows)))
  change during
  on_db (reset_to_pending (map (λ row. row.id) rows))

-- `if (rows.length === 0) return;`
pub relay_rows : (World → World) → Confirms → List WebhookEventRow → Act Void
relay_rows during outcome [] = pure tt
relay_rows during outcome (row ∷ rows) = publish_rows during outcome (row ∷ rows)

-- `relayTick`
pub relay_tick : (World → World) → Confirms → Act Void
relay_tick during outcome = do
  reaped ← on_db (reap_stale_publishing publishing_stale_seconds)
  rows ← on_db (claim_for_publishing relay_batch)
  relay_rows during outcome rows

-- `Number(msg.properties.headers?.["x-attempts"] ?? 1)`
abbrev pub attempt_of : Option ℕ → ℕ
attempt_of none = 1
attempt_of (some attempts) = attempts

-- The inner `catch` of the consumer.
pub on_failure : Message → String → Act Void
on_failure message error =
    let attempt = attempt_of message.attempts in
    if leb max_attempts attempt
    then (do
      change (on_dead (λ queue. queue ++ (record message { attempts = some attempt } ∷ [])))
      on_db (mark_failed message.outbox_id attempt error))
    else change (
        on_retry (λ queue.
          queue ++ ((record message { attempts = some (suc attempt) }, backoff_ms attempt) ∷ [])))

module _ (runtime : Runtime) where
  pub on_answer : Message → Answer → Act Void
  on_answer message (response status) =
      if is_ok status
      then on_db (mark_delivered message.outbox_id)
      else on_failure message ("non-2xx response: " ++ₛ runtime.decimal status)
  on_answer message (thrown error) = on_failure message error

  pub post_of : Message → WebhookEndpointRow → Post
  post_of message endpoint =
      let body = runtime.stringify message.event_type message.payload in
      record {
        url = endpoint.url;
        event_type = message.event_type;
        signature = runtime.sign_payload endpoint.secret body;
        body = body;
      }

  pub deliver_to : (Post → Answer) → Message → Option WebhookEndpointRow → Act Void
  deliver_to fetch message none = do
    change (on_dead (λ queue. queue ++ (record message { attempts = none } ∷ [])))
    on_db (mark_failed message.outbox_id (attempt_of message.attempts) "endpoint deleted")
  deliver_to fetch message (some endpoint) = on_answer message (fetch (post_of message endpoint))

  -- The consumer's callback. Its `ack` takes the message off the queue, whichever way it went.
  pub consume : (Post → Answer) → Message → Act Void
  consume fetch message = do
    endpoint ← on_db (find_by_id message.endpoint_id)
    deliver_to fetch message endpoint

  -- The outer `try`. A message is discarded when the query for its endpoint throws: the main queue has no
  -- dead-letter exchange for what is refused.
  pub handle_message : Option Error → (Post → Answer) → Message → Act Void
  handle_message (some outage) fetch message = pure tt
  handle_message none fetch message = consume fetch message

  -- The broker hands over the first message of the main queue, if there is one.
  pub consume_from : Option Error → (Post → Answer) → List Message → Act Void
  consume_from outage fetch [] = pure tt
  consume_from outage fetch (message ∷ queue) = do
    change (on_deliver (λ _. queue))
    handle_message outage fetch message

  pub consume_next : Option Error → (Post → Answer) → Act Void
  consume_next outage fetch w = consume_from outage fetch w.broker.deliver w
