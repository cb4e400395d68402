-- ===== src/Delivery/Attempts.antt =====
-- The deliveries of one event in turn, as the ticks of src/webhook-worker.ts make them.
use Prim.Native.String.{String}
use payment_apis.Prelude.{
  ℕ, zero, suc, ◌+◌, ◌≡◌, ◌≢◌, refl, sym, subst, inl, inr, true, false, Option, none, some, List,
  [], ◌∷◌, first, update, arith, leb, ◌==◌, Bool-cases, Option-cases, first-passes,
}
use payment_apis.Db.{Db, WebhookEndpointRow, WebhookEventRow, EventStatus, ok}
use payment_apis.Delivery.{max_attempts, Answer, Post, Runtime, deliver_one, post_of}
use payment_apis.Delivery.Outcome.{
  failure, failed_row, retried_row, after_failure, endpoint_of, delivered_row, deliver_one_lem,
}

-- `WHERE id = $1`
abbrev pub find_event : ℕ → Db → Option WebhookEventRow
find_event id db = first (λ e. e.id == id) db.webhook_events

first-updated :
    (id : ℕ) (f : WebhookEventRow → WebhookEventRow) (e : WebhookEventRow)
    (es : List WebhookEventRow)
    → (f e).id ≡ e.id
    → first (λ e. e.id == id) es ≡ some e
    → first (λ e. e.id == id) (update (λ e. e.id == id) f es) ≡ some (f e)
first-updated id f e [] same h = cc
first-updated id f e (x ∷ es) same h = elim (Bool-cases (x.id == id)) [
  | inl hit ↦ let found : x ≡ e = ground arith in rw found (ground (arith, same))
  | inr miss ↦ rw (miss, miss) (first-updated id f e es same (rw miss at h))
]

first-others :
    (id j : ℕ) (f : WebhookEventRow → WebhookEventRow) (es : List WebhookEventRow)
    → ((e : WebhookEventRow) → (f e).id ≡ e.id)
    → (j == id) ≡ false
    → first (λ e. e.id == j) (update (λ e. e.id == id) f es) ≡ first (λ e. e.id == j) es
first-others id j f [] same ne = refl
first-others id j f (x ∷ es) same ne = ground (arith, same x, first-others id j f es same ne)

-- A delivery keeps the ids.
after_failure-id :
    (now attempt : ℕ) (message : String) (e : WebhookEventRow)
    → (after_failure now attempt message e).id ≡ e.id
after_failure-id now attempt message e = elim (Bool-cases (leb max_attempts attempt)) [
  | inl last ↦ rw last refl
  | inr early ↦ rw early refl
]

delivered_row-id :
    (runtime : Runtime) (fetch : Post → Answer) (event : WebhookEventRow) (now : ℕ)
    (endpoint : Option WebhookEndpointRow) (e : WebhookEventRow)
    → (delivered_row runtime fetch event now endpoint e).id ≡ e.id
delivered_row-id runtime fetch event now none e = refl
delivered_row-id runtime fetch event now (some endpoint) e =
    elim (Option-cases (failure runtime (fetch (post_of runtime event endpoint)))) [
      | inl good ↦ rw good refl
      | inr (message, bad) ↦ rw bad (after_failure-id now (suc event.attempts) message e)
    ]

module _ (runtime : Runtime) (fetch : Post → Answer) (db : Db) (event row : WebhookEventRow)
    (stored : find_event event.id db ≡ some row) where
  -- A delivery of an event of the table returns, whatever the receiver does. The event is
  -- delivered on an answer of 200 to 299; else it is failed if it was the fifth attempt or its
  -- endpoint is gone, and waits for the backoff if not. Every other event is as it was.
  pub deliver_one_writes :
      (j : ℕ)
      → (j == event.id) ≡ false
      → let (r, after) = deliver_one runtime fetch event db in
        (r ≡ ok tt)
        × (find_event event.id after
            ≡ some (delivered_row runtime fetch event db.now (endpoint_of event db) row))
        × (find_event j after ≡ find_event j db)
  deliver_one_writes j other = rw (deliver_one_lem runtime event db fetch) (
    refl,
    first-updated event.id (delivered_row runtime fetch event db.now (endpoint_of event db)) row
        db.webhook_events (delivered_row-id runtime fetch event db.now (endpoint_of event db) row)
        stored,
    first-others event.id j (delivered_row runtime fetch event db.now (endpoint_of event db))
        db.webhook_events (delivered_row-id runtime fetch event db.now (endpoint_of event db))
        other,
  )

-- n deliveries of the event, each of the row that the one before has left.
module _ (runtime : Runtime) (fetch : Post → Answer) (id : ℕ) where
  pub redeliver : (Db → Db) → Db → Option WebhookEventRow → Db
  redeliver again db none = db
  redeliver again db (some event) = again (deliver_one runtime fetch event db).1

  pub deliver_times : ℕ → Db → Db
  deliver_times zero db = db
  deliver_times (suc n) db = redeliver (deliver_times n) db (find_event id db)

  -- What a failing delivery leaves, before the last attempt and on it.
  failing :
      (db : Db) (row : WebhookEventRow) (endpoint : WebhookEndpointRow) (message : String)
      → find_event id db ≡ some row
      → endpoint_of row db ≡ some endpoint
      → failure runtime (fetch (post_of runtime row endpoint)) ≡ some message
      → find_event id (deliver_one runtime fetch row db).1
        ≡ some (after_failure db.now (suc row.attempts) message row)
  failing db row endpoint message stored there fails =
      let same : row.id ≡ id =
        ground (arith, first-passes (λ e. e.id == id) db.webhook_events row stored) in
      let f = after_failure db.now (suc row.attempts) message in
      rw (deliver_one_lem runtime row db fetch) (
        rw there (
          rw fails (
            subst
              (λ i.
                first (λ e. e.id == i) (update (λ e. e.id == row.id) f db.webhook_events)
                ≡ some (f row))
              same
              (first-updated row.id f row db.webhook_events
                (after_failure-id db.now (suc row.attempts) message row)
                (subst (λ i. find_event i db ≡ some row) (sym same) stored)))))

  same_endpoints :
      (db : Db) (row : WebhookEventRow)
      → (deliver_one runtime fetch row db).1.webhook_endpoints ≡ db.webhook_endpoints
  same_endpoints db row = rw (deliver_one_lem runtime row db fetch) refl

  failed_once :
      (db : Db) (row : WebhookEventRow) (endpoint : WebhookEndpointRow)
      → ((p : Post) → failure runtime (fetch p) ≢ none)
      → find_event id db ≡ some row
      → endpoint_of row db ≡ some endpoint
      → (message : String) × (find_event id (deliver_one runtime fetch row db).1
          ≡ some (after_failure db.now (suc row.attempts) message row))
  failed_once db row endpoint bad stored there =
      elim (Option-cases (failure runtime (fetch (post_of runtime row endpoint)))) [
        | inl good ↦ absurd (bad _ good)
        | inr (message, fails) ↦ (message, failing db row endpoint message stored there fails)
      ]

  -- An event of the table whose endpoint is there and never answers with 200 to 299 is failed,
  -- with five attempts, after as many deliveries as it has left of its five.
  pub dead_letters :
      (n : ℕ) (db : Db) (row : WebhookEventRow) (endpoint : WebhookEndpointRow)
      → ((p : Post) → failure runtime (fetch p) ≢ none)
      → find_event id db ≡ some row
      → endpoint_of row db ≡ some endpoint
      → row.attempts + suc n ≡ max_attempts
      → (last : WebhookEventRow) × (find_event id (deliver_times (suc n) db) ≡ some last)
        × (last.status ≡ EventStatus.failed)
        × (last.attempts ≡ max_attempts)
  unfolding deliver_times redeliver
  dead_letters zero db row endpoint bad stored there left =
      let (message, found) = failed_once db row endpoint bad stored there in
      let last : leb max_attempts (suc row.attempts) ≡ true = ground arith in
      rw stored (
        failed_row db.now (suc row.attempts) message row,
        rw last at found,
        refl,
        omega (arith, left),
      )
  dead_letters (suc n) db row endpoint bad stored there left =
      let (message, found) = failed_once db row endpoint bad stored there in
      let early : leb max_attempts (suc row.attempts) ≡ false = ground arith in
      rw stored (
        dead_letters n (deliver_one runtime fetch row db).1
          (retried_row db.now (suc row.attempts) message row) endpoint bad (rw early at found)
          (rw (same_endpoints db row) there) (omega (arith, left)))
