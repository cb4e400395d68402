-- ===== src/Payment/Once.antt =====
-- The state machine of src/payments/payment.service.ts over time: what follows a confirmation or a
-- cancellation.
use payment_apis.Prelude.{
  ℕ, ◌≡◌, ◌≢◌, refl, subst, sym, ap, ◌∙◌, ◌⊎◌, inl, inr, some, List, [], ◌∷◌, map, update, first,
  arith, Absent, Distinct, ◌==◌, Bool-cases, All, All-first,
}
use payment_apis.Errors.{app, invalid_state_transition}
use payment_apis.Db.{
  Db, PaymentIntentRow, PaymentIntentStatus, requires_confirmation, succeeded, canceled, ok, err,
}
use payment_apis.Payment.{
  PublicPaymentIntent, PublicCharge, confirm, cancel, is_intent_of, set_status,
}
use payment_apis.Payment.Confirm.{
  intent_of, confirm_refused, cancel_refused, confirm-cases, cancel-cases,
}

-- A settled intent refuses both transitions, whatever its merchant's wallets are.
module _ (merchant_id id : ℕ) (db : Db) (intent : PaymentIntentRow)
    (found : intent_of merchant_id id db ≡ some intent) where
  succeeded-refuses :
      intent.status ≡ succeeded
      → (confirm merchant_id id db
          ≡ (err (app (invalid_state_transition "succeeded" "confirm")), db))
        × (cancel merchant_id id db
            ≡ (err (app (invalid_state_transition "succeeded" "cancel")), db))
  succeeded-refuses s = (
    confirm_refused merchant_id id db _ (rw found (simp s)),
    cancel_refused merchant_id id db _ (rw found (simp s)),
  )

  canceled-refuses :
      intent.status ≡ canceled
      → (confirm merchant_id id db
          ≡ (err (app (invalid_state_transition "canceled" "confirm")), db))
        × (cancel merchant_id id db
            ≡ (err (app (invalid_state_transition "canceled" "cancel")), db))
  canceled-refuses s = (
    confirm_refused merchant_id id db _ (rw found (simp s)),
    cancel_refused merchant_id id db _ (rw found (simp s)),
  )

module _ (merchant_id id now : ℕ) (intent : PaymentIntentRow) (status : PaymentIntentStatus) where
  -- After a status is set, the intent that was found is found with it.
  pub first-set_status :
      (rows : List PaymentIntentRow)
      → first (is_intent_of merchant_id id) rows ≡ some intent
      → first
          (is_intent_of merchant_id id)
          (update (λ r. r.id == intent.id) (set_status now status) rows)
        ≡ some (set_status now status intent)
  first-set_status [] e = cc
  first-set_status (r ∷ rows) e = elim (Bool-cases (is_intent_of merchant_id id r)) [
    | inl hit ↦ let same : r ≡ intent = ground arith in ground arith
    | inr miss ↦ ground (arith, first-set_status rows)
  ]

-- A payment intent is settled once. After a confirmation that returned, confirming or cancelling the
-- intent again throws the conflict of a settled status, and changes nothing.
pub confirm_once :
    (merchant_id id : ℕ) (db : Db) (a : PublicPaymentIntent × PublicCharge) (after : Db)
    → confirm merchant_id id db ≡ (ok a, after)
    → (confirm merchant_id id after
        ≡ (err (app (invalid_state_transition "succeeded" "confirm")), after))
      × (cancel merchant_id id after
          ≡ (err (app (invalid_state_transition "succeeded" "cancel")), after))
confirm_once merchant_id id db a after =
    confirm-cases merchant_id id db
      (λ r.
        r ≡ (ok a, after)
        → (confirm merchant_id id after
            ≡ (err (app (invalid_state_transition "succeeded" "confirm")), after))
          × (cancel merchant_id id after
              ≡ (err (app (invalid_state_transition "succeeded" "cancel")), after)))
      (λ e same. absurd (ground arith))
      λ intent w ws found ready held updated same.
        succeeded-refuses merchant_id id after (set_status db.now succeeded intent)
          (subst
            (λ (s : Db). intent_of merchant_id id s ≡ some (set_status db.now succeeded intent))
            (ap (λ r. r.1) same)
            (first-set_status merchant_id id db.now intent succeeded db.payment_intents found))
          refl

-- A payment intent is settled once. After a cancellation that returned, confirming or cancelling
-- the intent again throws the conflict of a settled status, and changes nothing.
pub cancel_once :
    (merchant_id id : ℕ) (db : Db) (a : PublicPaymentIntent) (after : Db)
    → cancel merchant_id id db ≡ (ok a, after)
    → (confirm merchant_id id after
        ≡ (err (app (invalid_state_transition "canceled" "confirm")), after))
      × (cancel merchant_id id after
          ≡ (err (app (invalid_state_transition "canceled" "cancel")), after))
cancel_once merchant_id id db a after =
    cancel-cases merchant_id id db
      (λ r.
        r ≡ (ok a, after)
        → (confirm merchant_id id after
            ≡ (err (app (invalid_state_transition "canceled" "confirm")), after))
          × (cancel merchant_id id after
              ≡ (err (app (invalid_state_transition "canceled" "cancel")), after)))
      (λ e same. absurd (ground arith))
      λ intent found ready same.
        canceled-refuses merchant_id id after (set_status db.now canceled intent)
          (subst (λ (s : Db). intent_of merchant_id id s ≡ some (set_status db.now canceled intent))
            (ap (λ r. r.1) same)
            (first-set_status merchant_id id db.now intent canceled db.payment_intents found))
          refl

-- The transitions that the status of one intent may make.
abbrev pub Progress : PaymentIntentStatus → PaymentIntentStatus → Type 0
Progress s t = (s ≡ t) ⊎ (s ≡ requires_confirmation)

-- The same intents in the same order, each with its id, owner, amount and currency, and with a status
-- that it may have come to.
abbrev pub Evolves : List PaymentIntentRow → List PaymentIntentRow → Type 0
Evolves [] [] = Unit
Evolves (r ∷ rs) (q ∷ qs) =
    (q.id ≡ r.id)
    × (q.merchant_id ≡ r.merchant_id)
    × (q.amount ≡ r.amount)
    × (q.currency ≡ r.currency)
    × Progress r.status q.status
    × Evolves rs qs
Evolves [] (q ∷ qs) = ⊥
Evolves (r ∷ rs) [] = ⊥

pub Evolves-refl : (rs : List PaymentIntentRow) → Evolves rs rs
Evolves-refl [] = tt
Evolves-refl (r ∷ rs) = (refl, refl, refl, refl, inl refl, Evolves-refl rs)

abbrev pub intent_ids : List PaymentIntentRow → List ℕ
intent_ids = map (λ r. r.id)

Absent-rows :
    (k : ℕ) (rs : List PaymentIntentRow) → Absent k (intent_ids rs) → All (λ r. r.id ≢ k) rs
Absent-rows k [] a = tt
Absent-rows k (r ∷ rs) a = (a.0, Absent-rows k rs a.1)

-- The head of the table that has the found intent's id is the found intent.
found_waits :
    (merchant_id id : ℕ) (intent r : PaymentIntentRow) (rs : List PaymentIntentRow)
    → Distinct (intent_ids (r ∷ rs))
    → first (is_intent_of merchant_id id) (r ∷ rs) ≡ some intent
    → r.id ≡ intent.id
    → intent.status ≡ requires_confirmation
    → r.status ≡ requires_confirmation
found_waits merchant_id id intent r rs d e same ready =
    elim (Bool-cases (is_intent_of merchant_id id r)) [
      | inl mine ↦ ground arith
      | inr other ↦ absurd (
          All-first (λ x. x.id ≢ r.id) (is_intent_of merchant_id id) rs intent
            (Absent-rows r.id rs d.0) (rw other at e) (sym same))
    ]

module _ (now k : ℕ) (status : PaymentIntentStatus) where
  Evolves-Absent :
      (rs : List PaymentIntentRow)
      → Absent k (intent_ids rs)
      → Evolves rs (update (λ r. r.id == k) (set_status now status) rs)
  Evolves-Absent [] a = tt
  Evolves-Absent (r ∷ rs) a = ground (arith, Evolves-Absent rs a.1)

  -- Setting the status of one waiting intent lets the table evolve, where ids are distinct.
  Evolves-set_status :
      (merchant_id id : ℕ) (intent : PaymentIntentRow) (rs : List PaymentIntentRow)
      → Distinct (intent_ids rs)
      → first (is_intent_of merchant_id id) rs ≡ some intent
      → intent.id ≡ k
      → intent.status ≡ requires_confirmation
      → Evolves rs (update (λ r. r.id == k) (set_status now status) rs)
  Evolves-set_status merchant_id id intent [] d e same ready = tt
  Evolves-set_status merchant_id id intent (r ∷ rs) d e same ready = elim (Bool-cases (r.id == k)) [
    | inl hit ↦
        let here : r.id ≡ k = ground arith in
        let waits : r.status ≡ requires_confirmation =
          found_waits merchant_id id intent r rs d e (here ∙ sym same) ready in
        rw hit (
          refl,
          refl,
          refl,
          refl,
          inr waits,
          Evolves-Absent rs (subst (λ (j : ℕ). Absent j (intent_ids rs)) here d.0),
        )
    | inr miss ↦ elim (Bool-cases (is_intent_of merchant_id id r)) [
      | inl mine ↦ absurd (ground arith)
      | inr other ↦ rw miss (
        refl,
        refl,
        refl,
        refl,
        inl refl,
        Evolves-set_status merchant_id id intent rs d.1 (rw other at e) same ready,
      )
    ]
  ]

-- Confirming a payment intent moves no intent but from waiting to settled, and keeps every intent's id,
-- owner, amount and currency, where intent ids are distinct.
pub confirm-Evolves :
    (merchant_id id : ℕ) (db : Db)
    → Distinct (intent_ids db.payment_intents)
    → Evolves db.payment_intents (confirm merchant_id id db).1.payment_intents
confirm-Evolves merchant_id id db d =
    confirm-cases merchant_id id db (λ r. Evolves db.payment_intents r.1.payment_intents)
      (λ e. Evolves-refl db.payment_intents)
      λ intent w ws found ready held updated.
        Evolves-set_status db.now intent.id succeeded merchant_id id intent db.payment_intents d
          found refl ready

-- Cancelling a payment intent moves no intent but from waiting to settled, and keeps every
-- intent's id, owner, amount and currency, where intent ids are distinct.
pub cancel-Evolves :
    (merchant_id id : ℕ) (db : Db)
    → Distinct (intent_ids db.payment_intents)
    → Evolves db.payment_intents (cancel merchant_id id db).1.payment_intents
cancel-Evolves merchant_id id db d =
    cancel-cases merchant_id id db (λ r. Evolves db.payment_intents r.1.payment_intents)
      (λ e. Evolves-refl db.payment_intents)
      λ intent found ready.
        Evolves-set_status db.now intent.id canceled merchant_id id intent db.payment_intents d
          found refl ready
