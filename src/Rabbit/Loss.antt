-- ===== src/Rabbit/Loss.antt =====
-- What an outage of the database does to the consumer of src/rabbit-worker.ts.
use payment_apis.Prelude.{
  ◌≡◌, subst, ap, true, false, some, List, ◌∷◌, ◌++◌, map, any, All-first, ◌==◌, first-passes,
  ==_iff, arith,
}
use payment_apis.Errors.{Error}
use payment_apis.Db.{WebhookEventRow, EventStatus}
use payment_apis.Delivery.{Answer, Post, Runtime}
use payment_apis.Delivery.Attempts.{find_event}
use payment_apis.Rabbit.{Message, World, handle_message, consume_from, consume_next, on_deliver}
use payment_apis.Rabbit.Tracking.{is_published, queued, carries, Tracked, IsTracked}

-- An event that is marked published, without a message, breaks what the steps keep.
untracked :
    (w : World) (e : WebhookEventRow) (id : _)
    → find_event id w.db ≡ some e
    → e.status ≡ EventStatus.published
    → any (carries id) (queued w) ≡ false
    → ¬ IsTracked w
untracked w e id found published gone t =
    let here : e.id ≡ id =
      (==_iff e.id id).0 (first-passes (λ x. x.id == id) w.db.webhook_events e found) in
    let waits : Tracked (queued w) e =
      All-first (Tracked (queued w)) (λ x. x.id == id) w.db.webhook_events e t.tracked found in
    let carried : any (carries id) (queued w) ≡ true =
      subst (λ j. any (carries j) (queued w) ≡ true) here (waits (ap is_published published)) in
    absurd (ground arith)

-- A message that comes when the database does not answer the consumer is lost: its event stays marked
-- published, as it was, and where no other message carries the event, none does any longer.
pub outage_loses :
    (runtime : Runtime) (outage : Error) (fetch : Post → Answer) (message : Message)
    (queue : List Message) (e : WebhookEventRow) (w : World)
    → w.broker.deliver ≡ message ∷ queue
    → find_event message.outbox_id w.db ≡ some e
    → e.status ≡ EventStatus.published
    → any (carries message.outbox_id) (queue ++ map (λ r. r.0) w.broker.retry) ≡ false
    → let after = (consume_next runtime (some outage) fetch w).1 in
      (find_event message.outbox_id after.db ≡ some e)
      × (any (carries message.outbox_id) (queued after) ≡ false)
      × (¬ IsTracked after)
unfolding consume_next consume_from handle_message
outage_loses runtime outage fetch message queue e w waiting found published alone =
    rw waiting (
      found,
      alone,
      untracked (on_deliver (λ _. queue) w) e message.outbox_id found published alone,
    )
