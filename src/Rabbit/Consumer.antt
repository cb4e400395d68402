-- ===== src/Rabbit/Consumer.antt =====
-- The consumer of src/rabbit-worker.ts on one message, and the events that are tracked.
use Prim.Native.String.{String}
use payment_apis.Prelude.{
  ℕ, suc, ◌≡◌, refl, subst, inl, inr, Bool, false, ◌||◌, Option, none, some, List, [], ◌∷◌, ◌++◌,
  map, update, any, All, All-update, All-append, All-front, All-back, any-append, leb, ◌==◌, arith,
  Bool-cases,
}
use payment_apis.Db.{WebhookEventRow, WebhookEndpointRow}
use payment_apis.Delivery.{
  Answer, response, thrown, Post, Runtime, is_ok, find_by_id, mark_delivered, mark_failed,
}
use payment_apis.Rabbit.{
  Message, World, attempt_of, max_attempts, on_failure, on_answer, post_of, backoff_ms, deliver_to,
  consume, handle_message, consume_from,
}
use payment_apis.Rabbit.Tracking.{
  is_published, queued, carries, Tracked, IsTrying, IsTracked, Tracked-more,
}

module _ {A B : Type 0} where
  pub map-append : (f : A → B) (xs ys : List A) → map f (xs ++ ys) ≡ map f xs ++ map f ys
  map-append f [] ys = refl
  map-append f (x ∷ xs) ys = cc (map-append f xs ys)

-- A message put on the retry queue is among those queued.
pub any-retried :
    (p : Message → Bool) (ms : List Message) (rs : List (Message × ℕ)) (message : Message)
    (expiration : ℕ)
    → any p (ms ++ map (λ r. r.0) (rs ++ ((message, expiration) ∷ [])))
      ≡ (p message || any p (ms ++ map (λ r. r.0) rs))
any-retried p ms rs message expiration =
    rw (map-append (λ r. r.0) rs ((message, expiration) ∷ [])) (
      ground (
        arith,
        any-append p ms (map (λ r. r.0) rs ++ (message ∷ [])),
        any-append p (map (λ r. r.0) rs) (message ∷ []),
        any-append p ms (map (λ r. r.0) rs),
      ))

retried-IsTrying :
    (ms : List Message) (rs : List (Message × ℕ)) (message : Message) (expiration : ℕ)
    → IsTrying message
    → All IsTrying (ms ++ map (λ r. r.0) rs)
    → All IsTrying (ms ++ map (λ r. r.0) (rs ++ ((message, expiration) ∷ [])))
retried-IsTrying ms rs message expiration new old =
    rw (map-append (λ r. r.0) rs ((message, expiration) ∷ [])) (
      All-append IsTrying ms _ (All-front IsTrying ms _ old) (
        All-append IsTrying (map (λ r. r.0) rs) (message ∷ []) (All-back IsTrying ms _ old)
          (new, tt)))

-- The message of the next attempt.
abbrev pub again : Message → Message
again m = record m { attempts = some (suc (attempt_of m.attempts)) }

-- The messages and events while the consumer holds one message.
module _ (message : Message) where
  abbrev IsHeld : World → Type 0
  IsHeld w =
      All (Tracked (message ∷ queued w)) w.db.webhook_events
      × All IsTrying (queued w)
      × IsTrying message

  -- The event of the message is settled.
  settled-IsTracked :
      (f : WebhookEventRow → WebhookEventRow) (w : World)
      → ((e : WebhookEventRow) → is_published (f e).status ≡ false)
      → IsHeld w
      → All (Tracked (queued w)) (update (λ e. e.id == message.outbox_id) f w.db.webhook_events)
  settled-IsTracked f w off (tracked, trying, attempts) =
      All-update (Tracked (message ∷ queued w)) (Tracked (queued w))
        (λ e. e.id == message.outbox_id) f w.db.webhook_events
        (λ e hit t h. absurd (ground (arith, off e))) (λ e miss t h. ground (arith, t h)) tracked

  on_failure-IsTracked :
      (error : String) (w : World) → IsHeld w → IsTracked (on_failure message error w).1
  unfolding on_failure mark_failed
  on_failure-IsTracked error w held =
      elim (Bool-cases (leb max_attempts (attempt_of message.attempts))) [
        | inl last ↦
            rw last record { tracked = settled-IsTracked _ w (λ e. refl) held; trying = held.1 }
        | inr early ↦ rw early record {
          tracked =
              Tracked-more (message ∷ queued w) _ w.db.webhook_events
                (λ id h. ground (
                  arith,
                  any-retried (carries id) w.broker.deliver w.broker.retry (again message)
                      (backoff_ms (attempt_of message.attempts)),
                ))
                held.0;
          trying =
              retried-IsTrying w.broker.deliver w.broker.retry (again message)
                (backoff_ms (attempt_of message.attempts)) (ground arith) held.1;
        }
      ]

  module _ (runtime : Runtime) where
    on_answer-IsTracked :
        (answer : Answer) (w : World) → IsHeld w → IsTracked (on_answer runtime message answer w).1
    unfolding on_answer mark_delivered
    on_answer-IsTracked (response status) w held = elim (Bool-cases (is_ok status)) [
      | inl good ↦
          rw good record { tracked = settled-IsTracked _ w (λ e. refl) held; trying = held.1 }
      | inr bad ↦ rw bad (on_failure-IsTracked _ w held)
    ]
    on_answer-IsTracked (thrown error) w held = on_failure-IsTracked error w held

    deliver_to-IsTracked :
        (fetch : Post → Answer) (endpoint : Option WebhookEndpointRow) (w : World)
        → IsHeld w
        → IsTracked (deliver_to runtime fetch message endpoint w).1
    unfolding deliver_to mark_failed
    deliver_to-IsTracked fetch none w held = record {
      tracked = settled-IsTracked _ w (λ e. refl) held;
      trying = held.1;
    }
    deliver_to-IsTracked fetch (some endpoint) w held =
        on_answer-IsTracked (fetch (post_of runtime message endpoint)) w held

pub consume_from-IsTracked :
    (runtime : Runtime) (fetch : Post → Answer) (queue : List Message) (w : World)
    → w.broker.deliver ≡ queue
    → IsTracked w
    → IsTracked (consume_from runtime none fetch queue w).1
unfolding consume_from handle_message consume find_by_id
consume_from-IsTracked runtime fetch [] w e t = t
consume_from-IsTracked runtime fetch (message ∷ queue) w e t =
    let ms : List Message = queue ++ map (λ p. p.0) w.broker.retry in
    let tracked : All (Tracked (message ∷ ms)) w.db.webhook_events =
      subst (λ q. All (Tracked (q ++ map (λ p. p.0) w.broker.retry)) w.db.webhook_events) e
        t.tracked in
    let trying : All IsTrying (message ∷ ms) =
      subst (λ q. All IsTrying (q ++ map (λ p. p.0) w.broker.retry)) e t.trying in
    deliver_to-IsTracked message runtime fetch _ _ (tracked, trying.1, trying.0)
