-- ===== src/Tests/Deliveries.antt =====
-- Deliveries of the sample database's event, after three attempts.
use payment_apis.Prelude.{◌≡◌, refl, some, arith}
use payment_apis.Db.{WebhookEventRow, EventStatus, ok}
use payment_apis.Delivery.{
  Answer, response, Post, Runtime, deliver_one, backoff_seconds, max_attempts,
}
use payment_apis.Delivery.Outcome.{delivered_row, endpoint_of}
use payment_apis.Delivery.Attempts.{find_event, deliver_times, deliver_one_writes, dead_letters}
use payment_apis.Sample.{event, endpoint, sample}

backoff_grows : (backoff_seconds 1 ≡ 5) × (backoff_seconds 4 ≡ 40) × (backoff_seconds 9 ≡ 300)
unfolding backoff_seconds
backoff_grows = (refl, refl, refl)

abbrev runtime : Runtime
runtime = record {
  stringify = λ event_type payload. event_type;
  sign_payload = λ secret body. secret;
  decimal = λ n. "500";
}

-- A receiver that always fails.
abbrev fetch : Post → Answer
fetch post = response 500

deliver_one_writes_example :
    let (r, after) = deliver_one runtime fetch event sample in
    (r ≡ ok tt)
    × (find_event 61 after
        ≡ some (delivered_row runtime fetch event 1_000 (endpoint_of event sample) event))
    × (find_event 62 after ≡ find_event 62 sample)
deliver_one_writes_example = deliver_one_writes runtime fetch sample event event refl 62 refl

dead_letters_example :
    (last : WebhookEventRow) × (find_event 61 (deliver_times runtime fetch 61 2 sample) ≡ some last)
    × (last.status ≡ EventStatus.failed)
    × (last.attempts ≡ max_attempts)
dead_letters_example =
    dead_letters runtime fetch 61 1 sample event endpoint (λ p e. absurd (ground arith)) refl refl
      (omega arith)
