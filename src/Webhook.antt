-- ===== src/Webhook.antt =====
-- src/webhooks/webhook.service.ts and the repositories below it: the outbox of events.
pub mod Outbox
use Prim.Native.String.{String, ◌++◌}
use payment_apis.Prelude.{
  ℕ, Bool, true, not, any, map, order_by, ◌&&◌, none, List, [], ◌∷◌, select, ◌==◌,
}
use payment_apis.Errors.{db_error, foreign_key_violation}
use payment_apis.Db.{
  throw_if, WebhookEndpointRow, EventData, EventStatus, Void, Exec, pure, gets, modify,
  gen_random_uuid, ◌>>=◌, ◌>>◌,
}

-- `webhookEndpointRepository.listActiveByMerchant`
abbrev pub is_listening : ℕ → WebhookEndpointRow → Bool
is_listening merchant_id e = (e.merchant_id == merchant_id) && e.is_active

pub list_active_by_merchant : ℕ → Exec (List WebhookEndpointRow)
list_active_by_merchant merchant_id =
    gets (λ db. select (is_listening merchant_id) db.webhook_endpoints)

-- The INSERT of `webhookEndpointRepository.insert`, with the reference to merchants.
pub insert_endpoint : ℕ → String → String → Exec WebhookEndpointRow
insert_endpoint merchant_id url secret = do
  db ← gets (λ db. db)
  throw_if (not (any (λ m. m.id == merchant_id) db.merchants)) (db_error foreign_key_violation)
  id ← gen_random_uuid
  let row : WebhookEndpointRow = record {
    id = id;
    merchant_id = merchant_id;
    url = url;
    secret = secret;
    is_active = true;
    created_at = db.now;
  }
  modify (λ db. record db { webhook_endpoints = row ∷ db.webhook_endpoints })
  pure row

pub list_by_merchant : ℕ → Exec (List WebhookEndpointRow)
list_by_merchant merchant_id = gets (λ db.
    order_by (λ e. e.created_at) (select (λ e. e.merchant_id == merchant_id) db.webhook_endpoints))

-- src/webhooks/webhook.dto.ts
pub record PublicWebhookEndpoint : Type 0 where
  pub id : ℕ
  pub url : String
  pub is_active : Bool
  pub created_at : ℕ

pub record RegisteredWebhookEndpoint : Type 0 where
  pub endpoint : PublicWebhookEndpoint
  pub secret : String

pub to_public : WebhookEndpointRow → PublicWebhookEndpoint
to_public row = record {
  id = row.id;
  url = row.url;
  is_active = row.is_active;
  created_at = row.created_at;
}

-- `registerEndpoint`; `random_hex` is what node:crypto's randomBytes gave, in hexadecimal digits.
pub register_endpoint : String → ℕ → String → Exec RegisteredWebhookEndpoint
register_endpoint random_hex merchant_id url = do
  let secret = "whsec_" ++ random_hex
  row ← insert_endpoint merchant_id url secret
  pure (record { endpoint = to_public row; secret = secret })

pub list_endpoints : ℕ → Exec (List PublicWebhookEndpoint)
list_endpoints merchant_id = do rows ← list_by_merchant merchant_id; pure (map to_public rows)

-- `webhookEventRepository.enqueue`; the trace context that it stores besides is left out.
pub enqueue : ℕ → ℕ → String → EventData → Exec Void
enqueue merchant_id endpoint_id event_type payload = do
  id ← gen_random_uuid
  modify (λ db. record db {
    webhook_events =
        record {
          id = id;
          merchant_id = merchant_id;
          endpoint_id = endpoint_id;
          event_type = event_type;
          payload = payload;
          status = EventStatus.pending;
          attempts = 0;
          next_attempt_at = db.now;
          last_error = none;
          created_at = db.now;
          updated_at = db.now;
        }
        ∷ db.webhook_events;
  })

-- The loop of `emit`.
pub enqueue_all : ℕ → String → EventData → List WebhookEndpointRow → Exec Void
enqueue_all merchant_id event_type payload [] = pure tt
enqueue_all merchant_id event_type payload (endpoint ∷ endpoints) = do
  enqueue merchant_id endpoint.id event_type payload
  enqueue_all merchant_id event_type payload endpoints

-- `webhookService.emit`
pub emit : ℕ → String → EventData → Exec Void
emit merchant_id event_type payload = do
  endpoints ← list_active_by_merchant merchant_id
  enqueue_all merchant_id event_type payload endpoints
