-- ===== src/Rabbit/Stuck.antt =====
-- An event of the outbox that is marked published and has no message: what the updates of the table and the
-- publications of src/rabbit-worker.ts do to it.
use payment_apis.Prelude.{
  ℕ, zero, suc, ◌≤◌, ◌≡◌, refl, inl, inr, Bool, true, false, some, List, [], ◌∷◌, ◌++◌, map, take,
  update, select, any, first, All, All-imp, All-map, All-take, All-order_by, All-select, All-update,
  any-append, ◌==◌, arith, Bool-cases,
}
use payment_apis.Db.{Db, WebhookEventRow, EventStatus}
use payment_apis.Delivery.{is_pending, is_publishing, is_among, is_stale, pending_ids}
use payment_apis.Rabbit.{Message, World, message_of}
use payment_apis.Rabbit.Tracking.{is_published, queued, carries}

pending-not_published : (s : EventStatus) → is_pending s ≡ true → is_published s ≡ false
pending-not_published EventStatus.pending h = refl
pending-not_published EventStatus.publishing h = refl
pending-not_published EventStatus.published h = cc
pending-not_published EventStatus.delivered h = refl
pending-not_published EventStatus.failed h = refl

publishing-not_published : (s : EventStatus) → is_publishing s ≡ true → is_published s ≡ false
publishing-not_published EventStatus.pending h = refl
publishing-not_published EventStatus.publishing h = refl
publishing-not_published EventStatus.published h = cc
publishing-not_published EventStatus.delivered h = refl
publishing-not_published EventStatus.failed h = refl

module _ (id : ℕ) where
  -- A row of the id is marked published.
  abbrev pub Kept : WebhookEventRow → Type 0
  Kept e = (e.id == id) ≡ true → is_published e.status ≡ true

  -- Another row.
  abbrev pub Other : WebhookEventRow → Type 0
  Other e = (e.id == id) ≡ false

  -- The table has rows of the id, all of them marked published; no message carries it; and no new row will have it.
  pub record IsStuck (w : World) : Type 0 where
    pub kept : All Kept w.db.webhook_events
    pub present : any (λ e. e.id == id) w.db.webhook_events ≡ true
    pub alone : any (carries id) (queued w) ≡ false
    pub unborn : (k : ℕ) → w.db.drawn ≤ k → (w.db.uuid k == id) ≡ false

  -- An update of other rows.
  pub Kept-update :
      (p : WebhookEventRow → Bool) (f : WebhookEventRow → WebhookEventRow)
      (es : List WebhookEventRow)
      → ((e : WebhookEventRow) → (f e).id ≡ e.id)
      → ((e : WebhookEventRow) → p e ≡ true → Kept e → Other e)
      → All Kept es
      → All Kept (update p f es)
  Kept-update p f es same others =
      All-update Kept Kept p f es (λ e hit k h. absurd (ground (arith, same e, others e hit k)))
        (λ e miss k. k)

  pub any-update :
      (p : WebhookEventRow → Bool) (f : WebhookEventRow → WebhookEventRow)
      (es : List WebhookEventRow)
      → ((e : WebhookEventRow) → (f e).id ≡ e.id)
      → any (λ e. e.id == id) (update p f es) ≡ any (λ e. e.id == id) es
  any-update p f [] same = refl
  any-update p f (e ∷ es) same = ground (arith, same e, any-update p f es same)

  -- The reaper takes rows that are being published, and the claim pending ones.
  pub stale-Other :
      (now seconds : ℕ) (e : WebhookEventRow) → is_stale now seconds e ≡ true → Kept e → Other e
  stale-Other now seconds e hit k = elim (Bool-cases (e.id == id)) [
    | inl same ↦
        let published = k same in absurd (ground (arith, publishing-not_published e.status))
    | inr other ↦ other
  ]

  pending-Other : (e : WebhookEventRow) → Kept e → is_pending e.status ≡ true → Other e
  pending-Other e k hit = elim (Bool-cases (e.id == id)) [
    | inl same ↦ let published = k same in absurd (ground (arith, pending-not_published e.status))
    | inr other ↦ other
  ]

  pub pending_ids-others :
      (limit : ℕ) (db : Db)
      → All Kept db.webhook_events
      → All (λ j. (j == id) ≡ false) (pending_ids limit db)
  pending_ids-others limit db kept =
      All-map (λ j. (j == id) ≡ false) (λ (e : WebhookEventRow). e.id) _
        (All-take Other limit _ (
          All-order_by Other (λ e. e.created_at) _
            (All-select Other (λ e. is_pending e.status) db.webhook_events
              (All-imp Kept (λ e. is_pending e.status ≡ true → Other e) db.webhook_events
                pending-Other kept))))

  pub among-Other :
      (ids : List ℕ) (e : WebhookEventRow)
      → All (λ j. (j == id) ≡ false) ids
      → is_among ids e ≡ true
      → Other e
  among-Other [] e all hit = cc
  among-Other (j ∷ ids) e all hit = elim (Bool-cases (j == e.id)) [
    | inl same ↦ let other = all.0 in ground arith
    | inr next ↦ among-Other ids e all.1 (rw next at hit)
  ]

  pub among-others :
      (ids : List ℕ) (es : List WebhookEventRow)
      → All (λ j. (j == id) ≡ false) ids
      → All Other (select (is_among ids) es)
  among-others ids es all = All-select Other (is_among ids) es (every es)
    where
      every : (es : List WebhookEventRow) → All (λ e. is_among ids e ≡ true → Other e) es
      every [] = tt
      every (e ∷ es) = (among-Other ids e all, every es)

  -- The messages of other rows.
  pub any-message_of :
      (rows : List WebhookEventRow)
      → All Other rows
      → any (carries id) (map message_of rows) ≡ false
  unfolding message_of
  any-message_of [] all = refl
  any-message_of (r ∷ rows) all = let other = all.0 in ground (arith, any-message_of rows all.1)

  pub any-take :
      (n : ℕ) (ms : List Message)
      → any (carries id) ms ≡ false
      → any (carries id) (take n ms) ≡ false
  any-take zero ms h = refl
  any-take (suc n) [] h = refl
  any-take (suc n) (m ∷ ms) h = ground (arith, any-take n ms)

  pub any-between :
      (xs more ys : List Message)
      → any (carries id) (xs ++ ys) ≡ false
      → any (carries id) more ≡ false
      → any (carries id) ((xs ++ more) ++ ys) ≡ false
  any-between xs more ys old new = ground (
    arith,
    any-append (carries id) xs ys,
    any-append (carries id) (xs ++ more) ys,
    any-append (carries id) xs more,
  )

  -- What a reader finds.
  pub find-Kept :
      (es : List WebhookEventRow)
      → All Kept es
      → any (λ e. e.id == id) es ≡ true
      → (e : WebhookEventRow) × (first (λ e. e.id == id) es ≡ some e)
        × (is_published e.status ≡ true)
  find-Kept [] all h = cc
  find-Kept (e ∷ es) all h = elim (Bool-cases (e.id == id)) [
    | inl here ↦ (e, rw here refl, all.0 here)
    | inr there ↦
        let (x, found, published) = find-Kept es all.1 (rw there at h) in
        (x, rw there found, published)
  ]
