-- ===== src/Rabbit/Tracking.antt =====
-- Events of the outbox against the messages of the broker: what it means that none is lost, and
-- the relay's publication of src/rabbit-worker.ts.
use payment_apis.Prelude.{
  ℕ, ◌≤◌, ◌≡◌, refl, Bool, true, false, List, [], ◌∷◌, ◌++◌, map, take, update, any, All, All-imp,
  All-update, All-append, All-front, All-back, All-take, any-append, ◌==◌, arith,
}
use payment_apis.Db.{WebhookEventRow, EventStatus}
use payment_apis.Delivery.{is_among, with_status, mark_published, reset_to_pending}
use payment_apis.Rabbit.{
  Message, World, Confirms, confirmed, lost, message_of, publish_rows, attempt_of, max_attempts,
}

abbrev pub is_published : EventStatus → Bool
is_published EventStatus.pending = false
is_published EventStatus.publishing = false
is_published EventStatus.published = true
is_published EventStatus.delivered = false
is_published EventStatus.failed = false

-- The messages that will be delivered again or for the first time.
abbrev pub queued : World → List Message
queued w = w.broker.deliver ++ map (λ p. p.0) w.broker.retry

abbrev pub carries : ℕ → Message → Bool
carries id m = m.outbox_id == id

-- An event that is marked published has a message among these.
abbrev pub Tracked : List Message → WebhookEventRow → Type 0
Tracked ms e = is_published e.status ≡ true → any (carries e.id) ms ≡ true

abbrev pub IsTrying : Message → Type 0
IsTrying m = attempt_of m.attempts ≤ max_attempts

pub record IsTracked (w : World) : Type 0 where
  pub tracked : All (Tracked (queued w)) w.db.webhook_events
  pub trying : All IsTrying (queued w)

-- The messages of the rows carry the rows' ids.
any-message_of :
    (id : ℕ) (rows : List WebhookEventRow)
    → any (carries id) (map message_of rows) ≡ any (λ j. j == id) (map (λ r. r.id) rows)
unfolding message_of
any-message_of id [] = refl
any-message_of id (r ∷ rows) = ground (arith, any-message_of id rows)

messages-IsTrying : (rows : List WebhookEventRow) → All IsTrying (map message_of rows)
unfolding message_of
messages-IsTrying [] = tt
messages-IsTrying (r ∷ rows) = (omega arith, messages-IsTrying rows)

-- More messages track no less.
pub Tracked-more :
    (ms more : List Message) (es : List WebhookEventRow)
    → ((id : ℕ) → any (carries id) ms ≡ true → any (carries id) more ≡ true)
    → All (Tracked ms) es
    → All (Tracked more) es
Tracked-more ms more es f = All-imp (Tracked ms) (Tracked more) es (λ e t h. f e.id (t h))

-- A row that is not marked published wants no message.
pub Tracked-update :
    (ms : List Message) (p : WebhookEventRow → Bool) (f : WebhookEventRow → WebhookEventRow)
    (es : List WebhookEventRow)
    → ((e : WebhookEventRow) → is_published (f e).status ≡ false)
    → All (Tracked ms) es
    → All (Tracked ms) (update p f es)
Tracked-update ms p f es off =
    All-update (Tracked ms) (Tracked ms) p f es (λ e hit t h. absurd (ground (arith, off e)))
      (λ e miss t. t)

any-first :
    (p : Message → Bool) (xs more ys : List Message)
    → any p (xs ++ ys) ≡ true
    → any p ((xs ++ more) ++ ys) ≡ true
any-first p xs more ys h =
    ground (arith, any-append p xs ys, any-append p (xs ++ more) ys, any-append p xs more)

any-middle :
    (p : Message → Bool) (xs more ys : List Message)
    → any p more ≡ true
    → any p ((xs ++ more) ++ ys) ≡ true
any-middle p xs more ys h = ground (arith, any-append p (xs ++ more) ys, any-append p xs more)

IsTrying-more :
    (xs more ys : List Message)
    → All IsTrying more
    → All IsTrying (xs ++ ys)
    → All IsTrying ((xs ++ more) ++ ys)
IsTrying-more xs more ys new old =
    All-append IsTrying (xs ++ more) ys
      (All-append IsTrying xs more (All-front IsTrying xs ys old) new) (All-back IsTrying xs ys old)

pub publish_rows-IsTracked :
    (outcome : Confirms) (rows : List WebhookEventRow) (w : World)
    → IsTracked w
    → IsTracked (publish_rows (λ v. v) outcome rows w).1
unfolding publish_rows mark_published reset_to_pending
publish_rows-IsTracked confirmed rows w t =
    let sent = map message_of rows in
    let ids = map (λ (r : WebhookEventRow). r.id) rows in
    record {
      tracked =
          All-update (Tracked (queued w))
            (Tracked ((w.broker.deliver ++ sent) ++ map (λ p. p.0) w.broker.retry)) (is_among ids)
            (with_status w.db.now EventStatus.published) w.db.webhook_events
            (λ e hit old h.
              any-middle (carries e.id) w.broker.deliver sent (map (λ p. p.0) w.broker.retry)
                (ground (arith, any-message_of e.id rows)))
            (λ e miss old h.
              any-first (carries e.id) w.broker.deliver sent (map (λ p. p.0) w.broker.retry)
                (old h))
            t.tracked;
      trying =
          IsTrying-more w.broker.deliver sent (map (λ p. p.0) w.broker.retry)
            (messages-IsTrying rows) t.trying;
    }
publish_rows-IsTracked (lost taken) rows w t =
    let sent = take taken (map message_of rows) in
    record {
      tracked =
          Tracked-update _ (is_among (map (λ (r : WebhookEventRow). r.id) rows))
            (with_status w.db.now EventStatus.pending) w.db.webhook_events (λ e. refl)
            (Tracked-more (queued w) _ w.db.webhook_events
              (λ id. any-first (carries id) w.broker.deliver sent (map (λ p. p.0) w.broker.retry))
              t.tracked);
      trying =
          IsTrying-more w.broker.deliver sent (map (λ p. p.0) w.broker.retry)
            (All-take IsTrying taken (map message_of rows) (messages-IsTrying rows)) t.trying;
    }
