-- ===== src/Rabbit/Stays.antt =====
-- A published event without a message through a tick of the relay and a delivery of src/rabbit-worker.ts.
use Prim.Native.String.{String}
use payment_apis.Prelude.{
  ℕ, ◌≡◌, refl, ◌∙◌, subst, inl, inr, Bool, true, false, Option, none, some, List, [], ◌∷◌, ◌++◌,
  map, take, update, any, All, All-map, leb, ◌==◌, arith, Bool-cases,
}
use payment_apis.Db.{WebhookEventRow, WebhookEndpointRow, EventStatus}
use payment_apis.Delivery.{
  Answer, response, thrown, Post, Runtime, is_ok, find_by_id, is_among, is_stale, with_status,
  pending_ids, claim_for_publishing, update_events, reap_stale_publishing, mark_published,
  reset_to_pending, mark_delivered, mark_failed,
}
use payment_apis.Rabbit.{
  relay_batch, publishing_stale_seconds, Message, World, Confirms, confirmed, lost, message_of,
  publish_rows, relay_rows, relay_tick, attempt_of, max_attempts, backoff_ms, on_failure, on_answer,
  post_of, deliver_to, consume, handle_message, consume_from, on_deliver,
}
use payment_apis.Rabbit.Steps.{relay_alone}
use payment_apis.Rabbit.Consumer.{any-retried, again}
use payment_apis.Rabbit.Tracking.{carries}
use payment_apis.Rabbit.Stuck.{
  Kept, Other, IsStuck, Kept-update, any-update, stale-Other, pending_ids-others, among-Other,
  among-others, any-message_of, any-take, any-between,
}

module _ (id : ℕ) where
  others-ids :
      (rows : List WebhookEventRow)
      → All (Other id) rows
      → All (λ j. (j == id) ≡ false) (map (λ r. r.id) rows)
  others-ids rows others =
      All-map (λ j. (j == id) ≡ false) (λ (r : WebhookEventRow). r.id) rows others

  -- An update of some rows, not of the id's, beside messages of other rows.
  marked-IsStuck :
      (now : ℕ) (status : EventStatus) (rows : List WebhookEventRow) (sent : List Message)
      (w : World)
      → All (Other id) rows
      → any (carries id) sent ≡ false
      → IsStuck id w
      → IsStuck id (record w {
        db = record w.db {
          webhook_events =
              update (is_among (map (λ r. r.id) rows)) (with_status now status) w.db.webhook_events;
        };
        broker = record w.broker { deliver = w.broker.deliver ++ sent };
      })
  marked-IsStuck now status rows sent w others silent s = record {
    kept =
        Kept-update id (is_among (map (λ r. r.id) rows)) (with_status now status)
          w.db.webhook_events (λ e. refl)
          (λ e hit k. among-Other id (map (λ r. r.id) rows) e (others-ids rows others) hit) s.kept;
    present =
        any-update id (is_among (map (λ r. r.id) rows)) (with_status now status) w.db.webhook_events
          (λ e. refl)
        ∙ s.present;
    alone = any-between id w.broker.deliver sent (map (λ r. r.0) w.broker.retry) s.alone silent;
    unborn = s.unborn;
  }

  publish_rows-IsStuck :
      (outcome : Confirms) (rows : List WebhookEventRow) (w : World)
      → All (Other id) rows
      → IsStuck id w
      → IsStuck id (publish_rows (λ v. v) outcome rows w).1
  unfolding publish_rows mark_published reset_to_pending
  publish_rows-IsStuck confirmed rows w others s =
      marked-IsStuck w.db.now EventStatus.published rows (map message_of rows) w others
        (any-message_of id rows others) s
  publish_rows-IsStuck (lost taken) rows w others s =
      marked-IsStuck w.db.now EventStatus.pending rows (take taken (map message_of rows)) w others
        (any-take id taken (map message_of rows) (any-message_of id rows others)) s

  relay_rows-IsStuck :
      (outcome : Confirms) (rows : List WebhookEventRow) (w : World)
      → All (Other id) rows
      → IsStuck id w
      → IsStuck id (relay_rows (λ v. v) outcome rows w).1
  unfolding relay_rows
  relay_rows-IsStuck outcome [] w others s = s
  relay_rows-IsStuck outcome (row ∷ rows) w others s =
      publish_rows-IsStuck outcome (row ∷ rows) w others s

  updated-IsStuck :
      (p : WebhookEventRow → Bool) (f : WebhookEventRow → WebhookEventRow) (w : World)
      → ((e : WebhookEventRow) → (f e).id ≡ e.id)
      → ((e : WebhookEventRow) → p e ≡ true → Kept id e → Other id e)
      → IsStuck id w
      → IsStuck id (record w { db = update_events p f w.db })
  updated-IsStuck p f w same others s = record {
    kept = Kept-update id p f w.db.webhook_events same others s.kept;
    present = any-update id p f w.db.webhook_events same ∙ s.present;
    alone = s.alone;
    unborn = s.unborn;
  }

  pub relay_alone-IsStuck :
      (outcome : Confirms) (w : World) → IsStuck id w → IsStuck id (relay_alone outcome w)
  unfolding relay_tick reap_stale_publishing claim_for_publishing
  relay_alone-IsStuck outcome w s =
      let stale = is_stale w.db.now publishing_stale_seconds in
      let reaped : World = record w {
        db = update_events stale (with_status w.db.now EventStatus.pending) w.db;
      } in
      let after_reap : IsStuck id reaped =
        updated-IsStuck stale (with_status w.db.now EventStatus.pending) w (λ e. refl)
          (stale-Other id w.db.now publishing_stale_seconds) s in
      let ids = pending_ids relay_batch reaped.db in
      let others = pending_ids-others id relay_batch reaped.db after_reap.kept in
      relay_rows-IsStuck outcome _ _ (among-others id ids _ others) (
        updated-IsStuck (is_among ids) (with_status w.db.now EventStatus.publishing) reaped
          (λ e. refl) (λ e hit k. among-Other id ids e others hit) after_reap)

  -- The consumer's update of the message's event, another one.
  settled-IsStuck :
      (f : WebhookEventRow → WebhookEventRow) (message : Message) (w : World) (dead : List Message)
      → ((e : WebhookEventRow) → (f e).id ≡ e.id)
      → carries id message ≡ false
      → IsStuck id w
      → IsStuck id (record w {
        db = record w.db {
          webhook_events = update (λ e. e.id == message.outbox_id) f w.db.webhook_events;
        };
        broker = record w.broker { dead = dead };
      })
  settled-IsStuck f message w dead same other s = record {
    kept =
        Kept-update id (λ e. e.id == message.outbox_id) f w.db.webhook_events same
          (λ e hit k. ground arith) s.kept;
    present = any-update id (λ e. e.id == message.outbox_id) f w.db.webhook_events same ∙ s.present;
    alone = s.alone;
    unborn = s.unborn;
  }

  module _ (message : Message) (other : carries id message ≡ false) where
    on_failure-IsStuck :
        (error : String) (w : World) → IsStuck id w → IsStuck id (on_failure message error w).1
    unfolding on_failure mark_failed
    on_failure-IsStuck error w s =
        elim (Bool-cases (leb max_attempts (attempt_of message.attempts))) [
          | inl last ↦ rw last (settled-IsStuck _ message w _ (λ e. refl) other s)
          | inr early ↦ rw early record {
            kept = s.kept;
            present = s.present;
            alone = ground (
              arith,
              s.alone,
              other,
              any-retried (carries id) w.broker.deliver w.broker.retry (again message)
                  (backoff_ms (attempt_of message.attempts)),
            );
            unborn = s.unborn;
          }
        ]

    on_answer-IsStuck :
        (runtime : Runtime) (answer : Answer) (w : World)
        → IsStuck id w
        → IsStuck id (on_answer runtime message answer w).1
    unfolding on_answer mark_delivered
    on_answer-IsStuck runtime (response status) w s = elim (Bool-cases (is_ok status)) [
      | inl good ↦ rw good (settled-IsStuck _ message w _ (λ e. refl) other s)
      | inr bad ↦ rw bad (on_failure-IsStuck _ w s)
    ]
    on_answer-IsStuck runtime (thrown error) w s = on_failure-IsStuck error w s

    deliver_to-IsStuck :
        (runtime : Runtime) (fetch : Post → Answer) (endpoint : Option WebhookEndpointRow)
        (w : World)
        → IsStuck id w
        → IsStuck id (deliver_to runtime fetch message endpoint w).1
    unfolding deliver_to mark_failed
    deliver_to-IsStuck runtime fetch none w s = settled-IsStuck _ message w _ (λ e. refl) other s
    deliver_to-IsStuck runtime fetch (some endpoint) w s =
        on_answer-IsStuck runtime (fetch (post_of runtime message endpoint)) w s

  -- A message comes off the queue.
  pub popped-IsStuck :
      (message : Message) (queue : List Message) (w : World)
      → w.broker.deliver ≡ message ∷ queue
      → IsStuck id w
      → (carries id message ≡ false) × IsStuck id (on_deliver (λ _. queue) w)
  popped-IsStuck message queue w e s =
      let alone : any (carries id) ((message ∷ queue) ++ map (λ r. r.0) w.broker.retry) ≡ false =
        subst (λ q. any (carries id) (q ++ map (λ r. r.0) w.broker.retry) ≡ false) e s.alone in
      (
        ground (arith, alone),
        record {
          kept = s.kept;
          present = s.present;
          alone = ground (arith, alone);
          unborn = s.unborn;
        },
      )

  pub consume_from-IsStuck :
      (runtime : Runtime) (fetch : Post → Answer) (queue : List Message) (w : World)
      → w.broker.deliver ≡ queue
      → IsStuck id w
      → IsStuck id (consume_from runtime none fetch queue w).1
  unfolding consume_from handle_message consume find_by_id
  consume_from-IsStuck runtime fetch [] w e s = s
  consume_from-IsStuck runtime fetch (message ∷ queue) w e s =
      let (other, after) = popped-IsStuck message queue w e s in
      deliver_to-IsStuck message other runtime fetch _ _ after
