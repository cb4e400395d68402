-- ===== src/Rabbit/Safety.antt =====
-- The events and messages through the steps of src/rabbit-worker.ts, of the broker and of the
-- emitting transactions.
use Prim.Native.String.{String}
use payment_apis.Prelude.{
  ℕ, suc, ◌≡◌, refl, ◌∙◌, subst, Bool, true, List, [], ◌∷◌, ◌++◌, map, any, All, All-append,
  All-front, All-back, any-append, arith,
}
use payment_apis.Db.{EventData, WebhookEventRow, WebhookEndpointRow, EventStatus}
use payment_apis.Delivery.{
  Runtime, is_among, is_stale, with_status, claim_for_publishing, reap_stale_publishing,
}
use payment_apis.Webhook.Outbox.{new_event, fan_out, emit_lem, listeners}
use payment_apis.Rabbit.{Message, World, Confirms, relay_rows, relay_tick, consume_next}
use payment_apis.Rabbit.Steps.{
  Step, relay, deliver, expire, commit, pass, Reach, here, next, relay_alone,
}
use payment_apis.Rabbit.Consumer.{map-append, consume_from-IsTracked}
use payment_apis.Rabbit.Tracking.{
  queued, carries, Tracked, IsTrying, IsTracked, Tracked-more, Tracked-update,
  publish_rows-IsTracked,
}

relay_rows-IsTracked :
    (outcome : Confirms) (rows : List WebhookEventRow) (w : World)
    → IsTracked w
    → IsTracked (relay_rows (λ v. v) outcome rows w).1
unfolding relay_rows
relay_rows-IsTracked outcome [] w t = t
relay_rows-IsTracked outcome (row ∷ rows) w t = publish_rows-IsTracked outcome (row ∷ rows) w t

pub relay_alone-IsTracked :
    (outcome : Confirms) (w : World) → IsTracked w → IsTracked (relay_alone outcome w)
unfolding relay_tick reap_stale_publishing claim_for_publishing
relay_alone-IsTracked outcome w t = relay_rows-IsTracked outcome _ _ record {
  tracked =
      Tracked-update (queued w) (is_among _) (with_status w.db.now EventStatus.publishing) _
        (λ e. refl)
        (Tracked-update (queued w) (is_stale w.db.now 30) (with_status w.db.now EventStatus.pending)
          w.db.webhook_events (λ e. refl) t.tracked);
  trying = t.trying;
}

-- The broker moves an expired message back to the main queue.
pub any-expired :
    (p : Message → Bool) (ms : List Message) (front back : List (Message × ℕ)) (message : Message)
    (expiration : ℕ)
    → any p ((ms ++ (message ∷ [])) ++ map (λ r. r.0) (front ++ back))
      ≡ any p (ms ++ map (λ r. r.0) (front ++ ((message, expiration) ∷ back)))
any-expired p ms front back message expiration =
    rw (map-append (λ (r : Message × ℕ). r.0) front ((message, expiration) ∷ back)) (
      rw (map-append (λ (r : Message × ℕ). r.0) front back) (
        ground (
          arith,
          any-append p ms (map (λ r. r.0) front ++ (message ∷ map (λ r. r.0) back)),
          any-append p (map (λ r. r.0) front) (message ∷ map (λ r. r.0) back),
          any-append p (ms ++ (message ∷ [])) (map (λ r. r.0) front ++ map (λ r. r.0) back),
          any-append p ms (message ∷ []),
          any-append p (map (λ r. r.0) front) (map (λ r. r.0) back),
        )))

expired-IsTrying :
    (ms : List Message) (front back : List (Message × ℕ)) (message : Message) (expiration : ℕ)
    → All IsTrying (ms ++ map (λ r. r.0) (front ++ ((message, expiration) ∷ back)))
    → All IsTrying ((ms ++ (message ∷ [])) ++ map (λ r. r.0) (front ++ back))
expired-IsTrying ms front back message expiration h =
    let old =
      rw (map-append (λ (r : Message × ℕ). r.0) front ((message, expiration) ∷ back)) at h in
    let waiting = All-back IsTrying ms _ old in
    let later = All-back IsTrying (map (λ r. r.0) front) _ waiting in
    rw (map-append (λ (r : Message × ℕ). r.0) front back) (
      All-append IsTrying (ms ++ (message ∷ [])) _
        (All-append IsTrying ms (message ∷ []) (All-front IsTrying ms _ old) (later.0, tt))
        (All-append IsTrying (map (λ r. r.0) front) (map (λ r. r.0) back)
          (All-front IsTrying (map (λ r. r.0) front) _ waiting) later.1))

-- New events are pending.
fan_out-Tracked :
    (merchant_id : ℕ) (event_type : String) (payload : EventData) (ms : List Message) (uuid : ℕ → ℕ)
    (now k : ℕ) (es : List WebhookEndpointRow) (events : List WebhookEventRow)
    → All (Tracked ms) events
    → All (Tracked ms) (fan_out merchant_id event_type payload uuid now k es events)
unfolding fan_out new_event
fan_out-Tracked merchant_id event_type payload ms uuid now k [] events t = t
fan_out-Tracked merchant_id event_type payload ms uuid now k (e ∷ es) events t =
    fan_out-Tracked merchant_id event_type payload ms uuid now (suc k) es _ ((λ h. cc), t)

module _ (runtime : Runtime) where
  -- Each step keeps both.
  pub Step-IsTracked : {w v : World} → Step runtime w v → IsTracked w → IsTracked v
  unfolding consume_next
  Step-IsTracked {w} (relay outcome) t = relay_alone-IsTracked outcome w t
  Step-IsTracked {w} (deliver fetch) t =
      consume_from-IsTracked runtime fetch w.broker.deliver w refl t
  Step-IsTracked {w} (expire front back message expiration waiting) t = record {
    tracked =
        Tracked-more (queued w) _ w.db.webhook_events
          (λ id h.
            any-expired (carries id) w.broker.deliver front back message expiration
            ∙ subst (λ rs. any (carries id) (w.broker.deliver ++ map (λ r. r.0) rs) ≡ true) waiting
                h)
          t.tracked;
    trying =
        expired-IsTrying w.broker.deliver front back message expiration
          (subst (λ rs. All IsTrying (w.broker.deliver ++ map (λ r. r.0) rs)) waiting t.trying);
  }
  Step-IsTracked {w} (commit merchant_id event_type payload) t =
      rw (emit_lem merchant_id event_type payload w.db) record {
        tracked =
            fan_out-Tracked merchant_id event_type payload (queued w) w.db.uuid w.db.now w.db.drawn
              (listeners merchant_id w.db) w.db.webhook_events t.tracked;
        trying = t.trying;
      }
  Step-IsTracked {w} (pass now later) t = record { tracked = t.tracked; trying = t.trying }

  -- However relay ticks that nothing interrupts, deliveries with the database up, expiries and new events follow on each
  -- other: every event that is marked published has a message that waits in the main or the retry queue,
  -- and no message waits for more than its fifth attempt, where both held at the start.
  pub Reach-IsTracked : {w v : World} → Reach runtime w v → IsTracked w → IsTracked v
  Reach-IsTracked here t = t
  Reach-IsTracked (next r step) t = Step-IsTracked step (Reach-IsTracked r t)
