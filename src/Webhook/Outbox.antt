-- ===== src/Webhook/Outbox.antt =====
-- What `emit` leaves in the outbox: the rows as one list, by a recursion on the endpoints that has
-- no state.
use Prim.Native.String.{String}
use payment_apis.Prelude.{ℕ, suc, ◌+◌, ◌≡◌, none, List, [], ◌∷◌, select, length, arith}
use payment_apis.Db.{Db, WebhookEndpointRow, WebhookEventRow, EventData, EventStatus, ok}
use payment_apis.Webhook.{is_listening, list_active_by_merchant, enqueue, enqueue_all, emit}

-- The endpoints that `emit` finds.
abbrev pub listeners : ℕ → Db → List WebhookEndpointRow
listeners merchant_id db = select (is_listening merchant_id) db.webhook_endpoints

module _ (merchant_id : ℕ) (event_type : String) (payload : EventData) where
  -- A new row of the outbox, for one endpoint.
  unfoldable pub new_event : ℕ → ℕ → WebhookEndpointRow → WebhookEventRow
  new_event id now endpoint = record {
    id = id;
    merchant_id = merchant_id;
    endpoint_id = endpoint.id;
    event_type = event_type;
    payload = payload;
    status = EventStatus.pending;
    attempts = 0;
    next_attempt_at = now;
    last_error = none;
    created_at = now;
    updated_at = now;
  }

  -- The rows for all endpoints, the last one first, on top of what is there; ids from draw k on.
  unfoldable pub fan_out :
      (ℕ → ℕ) → ℕ → ℕ → List WebhookEndpointRow → List WebhookEventRow → List WebhookEventRow
  fan_out uuid now k [] events = events
  fan_out uuid now k (e ∷ es) events =
      fan_out uuid now (suc k) es (new_event (uuid k) now e ∷ events)

  abbrev pub with_events : List WebhookEndpointRow → Db → Db
  with_events es db = record db {
    webhook_events = fan_out db.uuid db.now db.drawn es db.webhook_events;
    drawn = length es + db.drawn;
  }

  enqueue_all_lem :
      (es : List WebhookEndpointRow) (db : Db)
      → enqueue_all merchant_id event_type payload es db ≡ (ok tt, with_events es db)
  unfolding enqueue_all enqueue fan_out new_event
  enqueue_all_lem [] db = ground arith
  enqueue_all_lem (e ∷ es) db = rw (enqueue_all_lem es _) (ground arith)

  -- `emit` cannot fail, and changes the outbox alone.
  pub emit_lem :
      (db : Db)
      → emit merchant_id event_type payload db ≡ (ok tt, with_events (listeners merchant_id db) db)
  unfolding emit list_active_by_merchant
  emit_lem db = enqueue_all_lem (listeners merchant_id db) db

  -- One new row for each endpoint.
  pub length-fan_out :
      (uuid : ℕ → ℕ) (now k : ℕ) (es : List WebhookEndpointRow) (events : List WebhookEventRow)
      → length (fan_out uuid now k es events) ≡ length es + length events
  unfolding fan_out
  length-fan_out uuid now k [] events = omega arith
  length-fan_out uuid now k (e ∷ es) events =
      omega (arith, length-fan_out uuid now (suc k) es (new_event (uuid k) now e ∷ events))
