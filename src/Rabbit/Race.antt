-- ===== src/Rabbit/Race.antt =====
-- What the relay of src/rabbit-worker.ts writes over: `markPublished` and `resetToPending` look at the
-- ids of the batch alone, and the consumer of the same process may deliver while the relay waits.
use payment_apis.Prelude.{
  ℕ, ◌≡◌, refl, subst, sym, inl, inr, true, some, List, [], ◌∷◌, ◌++◌, map, take, first, update,
  any, ◌==◌, arith, Bool-cases,
}
use payment_apis.Db.{WebhookEventRow, EventStatus}
use payment_apis.Delivery.{is_among, with_status, mark_published, reset_to_pending}
use payment_apis.Delivery.Attempts.{find_event}
use payment_apis.Rabbit.{
  Message, World, Confirms, confirmed, lost, message_of, publish_rows, on_deliver,
}

-- The messages that reach the broker, and the mark that the relay sets at the end.
abbrev pub sent : Confirms → List WebhookEventRow → List Message
sent confirmed rows = map message_of rows
sent (lost taken) rows = take taken (map message_of rows)

abbrev pub mark_of : Confirms → EventStatus
mark_of confirmed = EventStatus.published
mark_of (lost taken) = EventStatus.pending

-- The world when the relay has sent its messages.
abbrev pub after_sending : Confirms → List WebhookEventRow → World → World
after_sending outcome rows w = on_deliver (λ queue. queue ++ sent outcome rows) w

first-marked :
    (id : ℕ) (ids : List ℕ) (f : WebhookEventRow → WebhookEventRow) (e : WebhookEventRow)
    (es : List WebhookEventRow)
    → any (λ j. j == id) ids ≡ true
    → ((x : WebhookEventRow) → (f x).id ≡ x.id)
    → first (λ x. x.id == id) es ≡ some e
    → first (λ x. x.id == id) (update (is_among ids) f es) ≡ some (f e)
first-marked id ids f e [] among same h = cc
first-marked id ids f e (x ∷ es) among same h = elim (Bool-cases (x.id == id)) [
  | inl hit ↦
      let found : x ≡ e = ground arith in
      let here : x.id ≡ id = ground arith in
      let marked : is_among ids x ≡ true =
        subst (λ i. any (λ j. j == i) ids ≡ true) (sym here) among in
      rw marked (rw found (ground (arith, same e)))
  | inr miss ↦
      let rest = first-marked id ids f e es among same (rw miss at h) in
      elim (Bool-cases (is_among ids x)) [
        | inl among_x ↦ rw among_x (ground (arith, same x))
        | inr not_x ↦ rw (not_x, miss) rest
      ]
]

-- Whatever a row of the batch has become by the time the relay marks it, delivered or failed included,
-- it ends as published where the broker confirmed, and as pending, to be sent and delivered once more,
-- where it did not.
pub publish_overwrites :
    (during : World → World) (outcome : Confirms) (row e : WebhookEventRow)
    (rows : List WebhookEventRow) (w : World)
    → any (λ j. j == row.id) (map (λ (r : WebhookEventRow). r.id) rows) ≡ true
    → find_event row.id (during (after_sending outcome rows w)).db ≡ some e
    → find_event row.id (publish_rows during outcome rows w).1.db
      ≡ some (with_status (during (after_sending outcome rows w)).db.now (mark_of outcome) e)
unfolding publish_rows mark_published reset_to_pending
publish_overwrites during confirmed row e rows w among h =
    first-marked row.id _ (with_status _ EventStatus.published) e _ among (λ x. refl) h
publish_overwrites during (lost taken) row e rows w among h =
    first-marked row.id _ (with_status _ EventStatus.pending) e _ among (λ x. refl) h
