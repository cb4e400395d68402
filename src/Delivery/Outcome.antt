-- ===== src/Delivery/Outcome.antt =====
-- How `deliverOne` of src/webhook-worker.ts ends: the row that it leaves for each answer.
use Prim.Native.String.{String, ◌++◌}
use payment_apis.Prelude.{
  ℕ, suc, ◌+◌, ◌≡◌, refl, inl, inr, Option, none, some, first, leb, ◌==◌, Bool-cases, Option-cases,
  if◌then◌else◌,
}
use payment_apis.Db.{Db, WebhookEndpointRow, WebhookEventRow, EventStatus, make_interval, ok}
use payment_apis.Delivery.{
  max_attempts, backoff_seconds, Answer, response, thrown, Post, is_ok, Runtime, on_failure,
  on_answer, post_of, deliver_to, deliver_one, find_by_id, mark_delivered, mark_retry, mark_failed,
  update_events, with_status,
}

-- Why a delivery failed, if it did: the answer's reading that does not look at the attempts.
abbrev pub failure : Runtime → Answer → Option String
failure runtime (response status) =
    if is_ok status then none else some ("non-2xx response: " ++ runtime.decimal status)
failure runtime (thrown message) = some message

-- The row that an event's delivery leaves.
abbrev pub failed_row : ℕ → ℕ → String → WebhookEventRow → WebhookEventRow
failed_row now attempt message e = record e {
  status = EventStatus.failed;
  attempts = attempt;
  last_error = some message;
  updated_at = now;
}

abbrev pub retried_row : ℕ → ℕ → String → WebhookEventRow → WebhookEventRow
retried_row now attempt message e = record e {
  attempts = attempt;
  next_attempt_at = now + make_interval (backoff_seconds attempt);
  last_error = some message;
  updated_at = now;
}

abbrev pub after_failure : ℕ → ℕ → String → WebhookEventRow → WebhookEventRow
after_failure now attempt message =
    if leb max_attempts attempt
    then failed_row now attempt message
    else retried_row now attempt message

abbrev pub after_answer : ℕ → ℕ → Option String → WebhookEventRow → WebhookEventRow
after_answer now attempt none = with_status now EventStatus.delivered
after_answer now attempt (some message) = after_failure now attempt message

-- The endpoint of an event, and the outcome without it.
abbrev pub endpoint_of : WebhookEventRow → Db → Option WebhookEndpointRow
endpoint_of event db = first (λ e. e.id == event.endpoint_id) db.webhook_endpoints

abbrev pub delivered_row :
    Runtime
    → (Post → Answer)
    → WebhookEventRow
    → ℕ
    → Option WebhookEndpointRow
    → WebhookEventRow
    → WebhookEventRow
delivered_row runtime fetch event now none = failed_row now (suc event.attempts) "endpoint deleted"
delivered_row runtime fetch event now (some endpoint) =
    after_answer now (suc event.attempts) (failure runtime (fetch (post_of runtime event endpoint)))

module _ (runtime : Runtime) (event : WebhookEventRow) (db : Db) where
  on_failure_lem :
      (message : String)
      → on_failure event message db ≡ (
        ok tt,
        update_events
            (λ e. e.id == event.id)
            (after_failure db.now (suc event.attempts) message)
            db,
      )
  unfolding on_failure mark_failed mark_retry
  on_failure_lem message = elim (Bool-cases (leb max_attempts (suc event.attempts))) [
    | inl last ↦ rw last refl
    | inr early ↦ rw early refl
  ]

  on_answer_lem :
      (answer : Answer)
      → on_answer runtime event answer db ≡ (
        ok tt,
        update_events
            (λ e. e.id == event.id)
            (after_answer db.now (suc event.attempts) (failure runtime answer))
            db,
      )
  unfolding on_answer mark_delivered
  on_answer_lem (response status) = elim (Bool-cases (is_ok status)) [
    | inl good ↦ rw good refl
    | inr bad ↦ rw bad (on_failure_lem ("non-2xx response: " ++ runtime.decimal status))
  ]
  on_answer_lem (thrown message) = on_failure_lem message

  -- A delivery cannot fail, and it writes the event's row alone.
  pub deliver_one_lem :
      (fetch : Post → Answer)
      → deliver_one runtime fetch event db ≡ (
        ok tt,
        update_events
            (λ e. e.id == event.id)
            (delivered_row runtime fetch event db.now (endpoint_of event db))
            db,
      )
  unfolding deliver_one find_by_id deliver_to mark_failed
  deliver_one_lem fetch = elim (Option-cases (endpoint_of event db)) [
    | inl gone ↦ rw gone refl
    | inr (endpoint, there) ↦ rw there (on_answer_lem (fetch (post_of runtime event endpoint)))
  ]
