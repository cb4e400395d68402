-- ===== src/Tests/Queues.antt =====
-- The relay and the consumer on the sample database's event.
use payment_apis.Prelude.{◌≡◌, refl, false, none, some, [], ◌∷◌, any, arith}
use payment_apis.Errors.{plain}
use payment_apis.Db.{EventStatus, WebhookEventRow}
use payment_apis.Delivery.{Answer, response, Post, Runtime, with_status, mark_delivered}
use payment_apis.Delivery.Attempts.{find_event}
use payment_apis.Rabbit.{Message, World, confirmed, on_db, consume_next, publish_rows}
use payment_apis.Rabbit.Steps.{relay, deliver, here, next, relay_alone}
use payment_apis.Rabbit.Tracking.{queued, carries, IsTracked}
use payment_apis.Rabbit.Safety.{Reach-IsTracked}
use payment_apis.Rabbit.Race.{publish_overwrites}
use payment_apis.Rabbit.Forever.{Later, lost_for_ever}
use payment_apis.Sample.{event, sample}

abbrev start : World
start = record { db = sample; broker = record { deliver = []; retry = []; dead = [] } }

start-IsTracked : IsTracked start
start-IsTracked = record { tracked = ((λ e. cc), tt); trying = tt }

abbrev runtime : Runtime
runtime = record {
  stringify = λ event_type payload. event_type;
  sign_payload = λ secret body. secret;
  decimal = λ n. "500";
}

-- A receiver that fails.
abbrev fetch : Post → Answer
fetch post = response 500

-- The event is published, and its first delivery fails.
Reach-IsTracked_example :
    IsTracked (consume_next runtime none fetch (relay_alone confirmed start)).1
Reach-IsTracked_example =
    Reach-IsTracked runtime (next (next here (relay confirmed)) (deliver fetch)) start-IsTracked

-- The receiver takes the event before the relay marks it.
abbrev taken : World → World
taken w = (on_db (mark_delivered 61) w).1

publish_overwrites_example :
    find_event 61 (publish_rows taken confirmed (event ∷ []) start).1.db
    ≡ some (with_status 1_000 EventStatus.published (with_status 1_000 EventStatus.delivered event))
unfolding mark_delivered
publish_overwrites_example =
    publish_overwrites taken confirmed event (with_status 1_000 EventStatus.delivered event)
      (event ∷ []) start refl refl

-- The relay has published the event, and the consumer's first query fails.
abbrev sent_message : Message
sent_message = record {
  outbox_id = 61;
  endpoint_id = 31;
  event_type = event.event_type;
  payload = event.payload;
  attempts = some 1;
}

abbrev relayed : World
relayed = record {
  db = record sample { webhook_events = with_status 1_000 EventStatus.published event ∷ [] };
  broker = record { deliver = sent_message ∷ []; retry = []; dead = [] };
}

-- The relay and the consumer go on.
abbrev outage_over : World
outage_over = (consume_next runtime (some (plain "connection terminated")) fetch relayed).1

lost_for_ever_example :
    let later = (consume_next runtime none fetch (relay_alone confirmed outage_over)).1 in
    ((x : WebhookEventRow) × (find_event 61 later.db ≡ some x) × (x.status ≡ EventStatus.published))
    × (any (carries 61) (queued later) ≡ false)
lost_for_ever_example =
    lost_for_ever runtime (plain "connection terminated") fetch sent_message []
      (with_status 1_000 EventStatus.published event) relayed
      (consume_next runtime none fetch (relay_alone confirmed outage_over)).1 refl refl refl
      (tt, tt) refl (λ k h. ground arith)
      (Later.next (Later.next Later.here (relay confirmed)) (deliver fetch))
