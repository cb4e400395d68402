-- ===== src/Rabbit/Forever.antt =====
-- A published event without a message through the steps of src/rabbit-worker.ts, of the broker and of the emitting
-- transactions, with outages of the database.
use Prim.Native.String.{String}
use payment_apis.Prelude.{
  ℕ, suc, ◌≤◌, ◌≡◌, refl, ◌∙◌, ap, subst, inl, inr, true, false, some, List, [], ◌∷◌, ◌++◌, map,
  first, any, All, Absent, Distinct, ◌==◌, arith, Bool-cases,
}
use payment_apis.Errors.{Error}
use payment_apis.Db.{EventData, WebhookEventRow, WebhookEndpointRow, EventStatus}
use payment_apis.Webhook.Outbox.{new_event, fan_out, emit_lem, listeners}
use payment_apis.Delivery.{Answer, Post, Runtime}
use payment_apis.Delivery.Attempts.{find_event}
use payment_apis.Rabbit.{Message, World, consume_from, handle_message, consume_next}
use payment_apis.Rabbit.Steps.{Step, relay, deliver, expire, commit, pass}
use payment_apis.Rabbit.Safety.{any-expired}
use payment_apis.Rabbit.Tracking.{is_published, queued, carries}
use payment_apis.Rabbit.Stuck.{Kept, IsStuck, find-Kept}
use payment_apis.Rabbit.Stays.{relay_alone-IsStuck, popped-IsStuck, consume_from-IsStuck}

-- The steps, and deliveries while the database does not answer.
pub data Later (runtime : Runtime) (w : World) : World → Type 0 where
  here : Later runtime w w
  next : {u v : World} → Later runtime w u → Step runtime u v → Later runtime w v
  fails :
      {u : World} (outage : Error) (fetch : Post → Answer)
      → Later runtime w u
      → Later runtime w (consume_next runtime (some outage) fetch u).1

is_published-eq : (s : EventStatus) → is_published s ≡ true → s ≡ EventStatus.published
is_published-eq EventStatus.pending h = cc
is_published-eq EventStatus.publishing h = cc
is_published-eq EventStatus.published h = refl
is_published-eq EventStatus.delivered h = cc
is_published-eq EventStatus.failed h = cc

module _ (id : ℕ) where
  -- New events have other ids.
  module _ (merchant_id : ℕ) (event_type : String) (payload : EventData) where
    fan_out-Kept :
        (uuid : ℕ → ℕ) (now k : ℕ) (es : List WebhookEndpointRow) (events : List WebhookEventRow)
        → ((j : ℕ) → k ≤ j → (uuid j == id) ≡ false)
        → All (Kept id) events
        → All (Kept id) (fan_out merchant_id event_type payload uuid now k es events)
    unfolding fan_out new_event
    fan_out-Kept uuid now k [] events unborn all = all
    fan_out-Kept uuid now k (e ∷ es) events unborn all =
        fan_out-Kept uuid now (suc k) es _ (λ j h. unborn j (omega (arith, h)))
          ((λ h. absurd (ground (arith, unborn k (omega arith)))), all)

    any-fan_out :
        (uuid : ℕ → ℕ) (now k : ℕ) (es : List WebhookEndpointRow) (events : List WebhookEventRow)
        → any (λ e. e.id == id) events ≡ true
        → any (λ e. e.id == id) (fan_out merchant_id event_type payload uuid now k es events) ≡ true
    unfolding fan_out new_event
    any-fan_out uuid now k [] events h = h
    any-fan_out uuid now k (e ∷ es) events h = any-fan_out uuid now (suc k) es _ (ground arith)

  outage-IsStuck :
      (runtime : Runtime) (outage : Error) (fetch : Post → Answer) (queue : List Message)
      (w : World)
      → w.broker.deliver ≡ queue
      → IsStuck id w
      → IsStuck id (consume_from runtime (some outage) fetch queue w).1
  unfolding consume_from handle_message
  outage-IsStuck runtime outage fetch [] w e s = s
  outage-IsStuck runtime outage fetch (message ∷ queue) w e s =
      (popped-IsStuck id message queue w e s).1

  module _ (runtime : Runtime) where
    Step-IsStuck : {w v : World} → Step runtime w v → IsStuck id w → IsStuck id v
    unfolding consume_next
    Step-IsStuck {w} (relay outcome) s = relay_alone-IsStuck id outcome w s
    Step-IsStuck {w} (deliver fetch) s =
        consume_from-IsStuck id runtime fetch w.broker.deliver w refl s
    Step-IsStuck {w} (expire front back message expiration waiting) s = record {
      kept = s.kept;
      present = s.present;
      alone =
          any-expired (carries id) w.broker.deliver front back message expiration
          ∙ subst (λ rs. any (carries id) (w.broker.deliver ++ map (λ r. r.0) rs) ≡ false) waiting
              s.alone;
      unborn = s.unborn;
    }
    Step-IsStuck {w} (commit merchant_id event_type payload) s =
        rw (emit_lem merchant_id event_type payload w.db) record {
          kept =
              fan_out-Kept merchant_id event_type payload w.db.uuid w.db.now w.db.drawn
                (listeners merchant_id w.db) w.db.webhook_events s.unborn s.kept;
          present =
              any-fan_out merchant_id event_type payload w.db.uuid w.db.now w.db.drawn
                (listeners merchant_id w.db) w.db.webhook_events s.present;
          alone = s.alone;
          unborn = λ k h. s.unborn k (omega (arith, h));
        }
    Step-IsStuck {w} (pass now later) s = record {
      kept = s.kept;
      present = s.present;
      alone = s.alone;
      unborn = s.unborn;
    }

    Later-IsStuck : {w v : World} → Later runtime w v → IsStuck id w → IsStuck id v
    unfolding consume_next
    Later-IsStuck here s = s
    Later-IsStuck (next run step) s = Step-IsStuck step (Later-IsStuck run s)
    Later-IsStuck (fails {u} outage fetch run) s =
        outage-IsStuck runtime outage fetch u.broker.deliver u refl (Later-IsStuck run s)

  -- Where ids are distinct, one published row is all.
  Absent-Kept :
      (k : ℕ) (es : List WebhookEventRow)
      → k ≡ id
      → Absent k (map (λ e. e.id) es)
      → All (Kept id) es
  Absent-Kept k [] same absent = tt
  Absent-Kept k (e ∷ es) same absent =
      let other = absent.0 in ((λ h. absurd (ground arith)), Absent-Kept k es same absent.1)

  once-Kept :
      (e : WebhookEventRow) (es : List WebhookEventRow)
      → Distinct (map (λ e. e.id) es)
      → first (λ e. e.id == id) es ≡ some e
      → is_published e.status ≡ true
      → All (Kept id) es × (any (λ e. e.id == id) es ≡ true)
  once-Kept e [] distinct found published = cc
  once-Kept e (x ∷ es) distinct found published = elim (Bool-cases (x.id == id)) [
    | inl hit ↦ (((λ h. ground arith), Absent-Kept x.id es (ground arith) distinct.0), rw hit refl)
    | inr miss ↦
        let (all, present) = once-Kept e es distinct.1 (rw miss at found) published in
        (((λ h. absurd (ground arith)), all), rw miss present)
  ]

lost-IsStuck :
    (runtime : Runtime) (outage : Error) (fetch : Post → Answer) (message : Message)
    (queue : List Message) (e : WebhookEventRow) (w : World)
    → w.broker.deliver ≡ message ∷ queue
    → find_event message.outbox_id w.db ≡ some e
    → e.status ≡ EventStatus.published
    → Distinct (map (λ e. e.id) w.db.webhook_events)
    → any (carries message.outbox_id) (queue ++ map (λ r. r.0) w.broker.retry) ≡ false
    → ((k : ℕ) → w.db.drawn ≤ k → (w.db.uuid k == message.outbox_id) ≡ false)
    → IsStuck message.outbox_id (consume_next runtime (some outage) fetch w).1
unfolding consume_next consume_from handle_message
lost-IsStuck runtime outage fetch message queue e w waiting found published distinct alone unborn =
    let (kept, present) =
      once-Kept message.outbox_id e w.db.webhook_events distinct found
        (ap is_published published) in
    rw waiting record { kept = kept; present = present; alone = alone; unborn = unborn }

-- A message comes when the database does not answer the consumer; its event is marked published, no other message
-- carries the event, the ids of the events are distinct, and no UUID to come is the event's. Then the event is
-- lost for ever: however relay ticks that nothing interrupts, deliveries, outages at a delivery, expiries and
-- new events follow, the table still has the event, marked published, and no message of the main or of the retry queue
-- carries it.
pub lost_for_ever :
    (runtime : Runtime) (outage : Error) (fetch : Post → Answer) (message : Message)
    (queue : List Message) (e : WebhookEventRow) (w v : World)
    → w.broker.deliver ≡ message ∷ queue
    → find_event message.outbox_id w.db ≡ some e
    → e.status ≡ EventStatus.published
    → Distinct (map (λ e. e.id) w.db.webhook_events)
    → any (carries message.outbox_id) (queue ++ map (λ r. r.0) w.broker.retry) ≡ false
    → ((k : ℕ) → w.db.drawn ≤ k → (w.db.uuid k == message.outbox_id) ≡ false)
    → Later runtime (consume_next runtime (some outage) fetch w).1 v
    → ((x : WebhookEventRow) × (find_event message.outbox_id v.db ≡ some x)
        × (x.status ≡ EventStatus.published))
      × (any (carries message.outbox_id) (queued v) ≡ false)
lost_for_ever runtime outage fetch message queue e w v waiting found published distinct alone unborn
      run =
    let id = message.outbox_id in
    let s = Later-IsStuck id runtime run (
      lost-IsStuck runtime outage fetch message queue e w waiting found published distinct alone
        unborn) in
    let (x, stored, marked) = find-Kept id v.db.webhook_events s.kept s.present in
    ((x, stored, is_published-eq x.status marked), s.alone)
