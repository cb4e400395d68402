-- ===== src/Delivery/Events.antt =====
-- The claims and marks of src/webhooks/webhook-event.repository.ts, and `findById` of
-- webhook-endpoint.repository.ts. No other session holds row locks while a claim runs, so SKIP LOCKED
-- skips nothing.
use Prim.Native.String.{String}
use payment_apis.Prelude.{
  ℕ, ◌+◌, Bool, true, false, ◌&&◌, Option, some, List, map, take, select, first, count, update, any,
  order_by, ltb, leb, ◌==◌,
}
use payment_apis.Db.{
  Db, WebhookEndpointRow, WebhookEventRow, EventStatus, make_interval, Void, Exec, pure, gets,
  modify, ◌>>=◌, ◌>>◌,
}

unfoldable pub find_by_id : ℕ → Exec (Option WebhookEndpointRow)
find_by_id id = gets (λ db. first (λ e. e.id == id) db.webhook_endpoints)

abbrev pub is_pending : EventStatus → Bool
is_pending EventStatus.pending = true
is_pending EventStatus.publishing = false
is_pending EventStatus.published = false
is_pending EventStatus.delivered = false
is_pending EventStatus.failed = false

abbrev pub is_publishing : EventStatus → Bool
is_publishing EventStatus.pending = false
is_publishing EventStatus.publishing = true
is_publishing EventStatus.published = false
is_publishing EventStatus.delivered = false
is_publishing EventStatus.failed = false

abbrev pub is_among : List ℕ → WebhookEventRow → Bool
is_among ids e = any (λ j. j == e.id) ids

-- An UPDATE of the table.
abbrev pub update_events : (WebhookEventRow → Bool) → (WebhookEventRow → WebhookEventRow) → Db → Db
update_events p f db = record db { webhook_events = update p f db.webhook_events }

abbrev pub with_status : ℕ → EventStatus → WebhookEventRow → WebhookEventRow
with_status now status e = record e { status = status; updated_at = now }

-- `WHERE status = 'pending' AND next_attempt_at <= now() ORDER BY next_attempt_at LIMIT $1`
abbrev pub due_ids : ℕ → Db → List ℕ
due_ids limit db =
    map (λ e. e.id)
      (take limit (
        order_by (λ e. e.next_attempt_at)
          (select (λ e. is_pending e.status && leb e.next_attempt_at db.now) db.webhook_events)))

-- `claimDue`
unfoldable pub claim_due : ℕ → ℕ → Exec (List WebhookEventRow)
claim_due limit lease_seconds = do
  db ← gets (λ db. db)
  let ids = due_ids limit db
  modify (
      update_events (is_among ids) (λ e. record e {
        next_attempt_at = db.now + make_interval lease_seconds;
        updated_at = db.now;
      }))
  gets (λ db. select (is_among ids) db.webhook_events)

-- `WHERE status = 'pending' ORDER BY created_at LIMIT $1`
abbrev pub pending_ids : ℕ → Db → List ℕ
pending_ids limit db =
    map (λ e. e.id)
      (take limit
        (order_by (λ e. e.created_at) (select (λ e. is_pending e.status) db.webhook_events)))

unfoldable pub claim_for_publishing : ℕ → Exec (List WebhookEventRow)
claim_for_publishing limit = do
  db ← gets (λ db. db)
  let ids = pending_ids limit db
  modify (update_events (is_among ids) (with_status db.now EventStatus.publishing))
  gets (λ db. select (is_among ids) db.webhook_events)

unfoldable pub mark_published : List ℕ → Exec Void
mark_published ids =
    modify (λ db. update_events (is_among ids) (with_status db.now EventStatus.published) db)

unfoldable pub reset_to_pending : List ℕ → Exec Void
reset_to_pending ids =
    modify (λ db. update_events (is_among ids) (with_status db.now EventStatus.pending) db)

abbrev pub is_stale : ℕ → ℕ → WebhookEventRow → Bool
is_stale now stale_seconds e =
    is_publishing e.status && ltb (e.updated_at + make_interval stale_seconds) now

unfoldable pub reap_stale_publishing : ℕ → Exec ℕ
reap_stale_publishing stale_seconds = do
  db ← gets (λ db. db)
  modify (update_events (is_stale db.now stale_seconds) (with_status db.now EventStatus.pending))
  pure (count (is_stale db.now stale_seconds) db.webhook_events)

unfoldable pub mark_delivered : ℕ → Exec Void
mark_delivered id =
    modify (λ db. update_events (λ e. e.id == id) (with_status db.now EventStatus.delivered) db)

unfoldable pub mark_retry : ℕ → ℕ → ℕ → String → Exec Void
mark_retry id attempts backoff_seconds error = modify (λ db.
    update_events (λ e. e.id == id)
      (λ e. record e {
        attempts = attempts;
        next_attempt_at = db.now + make_interval backoff_seconds;
        last_error = some error;
        updated_at = db.now;
      })
      db)

unfoldable pub mark_failed : ℕ → ℕ → String → Exec Void
mark_failed id attempts error = modify (λ db.
    update_events (λ e. e.id == id)
      (λ e. record e {
        status = EventStatus.failed;
        attempts = attempts;
        last_error = some error;
        updated_at = db.now;
      })
      db)
