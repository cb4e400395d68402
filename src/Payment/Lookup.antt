-- ===== src/Payment/Lookup.antt =====
-- Who reads and settles a payment intent that src/payments/payment.service.ts has created.
use payment_apis.Prelude.{
  ℕ, ◌≡◌, ◌≢◌, refl, ap, sym, ◌∙◌, inl, inr, none, some, List, ◌∷◌, first, any, ◌==◌, ==-refl,
  arith, Bool-cases, Option-cases, leb,
}
use payment_apis.Prelude.Double.{to_string}
use payment_apis.Errors.{app, payment_intent_not_found}
use payment_apis.Db.{
  Db, PaymentIntentRow, ok, err, bigint_end, requires_confirmation, with_transaction,
}
use payment_apis.Wallet.{is_held_by, find_by_merchant_and_currency}
use payment_apis.Payment.{
  CreatePaymentIntentDto, PublicPaymentIntent, is_intent_of, insert, find_by_id,
  find_by_id_for_update, to_public_intent, create, get, confirm_body, confirm, cancel_body, cancel,
}

unfoldable pub new_intent : ℕ → CreatePaymentIntentDto → Db → PaymentIntentRow
new_intent merchant_id dto db = record {
  id = db.uuid db.drawn;
  merchant_id = merchant_id;
  amount = to_string dto.amount;
  currency = dto.currency;
  status = requires_confirmation;
  customer_reference = dto.customer_reference;
  created_at = db.now;
  updated_at = db.now;
}

create-eq-ok :
    (merchant_id : ℕ) (dto : CreatePaymentIntentDto) (db : Db) (p : PublicPaymentIntent)
    (after : Db)
    → create merchant_id dto db ≡ (ok p, after)
    → (p ≡ to_public_intent (new_intent merchant_id dto db))
      × (after.payment_intents ≡ new_intent merchant_id dto db ∷ db.payment_intents)
unfolding create insert find_by_merchant_and_currency new_intent
create-eq-ok merchant_id dto db p after h =
    elim (Option-cases (first (is_held_by merchant_id dto.currency) db.wallets)) [
      | inl none_held ↦ absurd (ground arith)
      | inr (wallet, held) ↦ elim (Bool-cases (leb bigint_end (to_string dto.amount))) [
        | inl large ↦ absurd (ground arith)
        | inr fits ↦ elim (Bool-cases (to_string dto.amount == 0)) [
          | inl nothing ↦ absurd (ground arith)
          | inr positive ↦ elim (Bool-cases (any (λ m. m.id == merchant_id) db.merchants)) [
            | inl known ↦ (ground arith, ground arith)
            | inr stranger ↦ absurd (ground arith)
          ]
        ]
      ]
    ]

module _ (db : Db) (merchant_id id : ℕ) where
  get-found :
      (row : PaymentIntentRow)
      → first (is_intent_of merchant_id id) db.payment_intents ≡ some row
      → get merchant_id id db ≡ (ok (to_public_intent row), db)
  unfolding get find_by_id
  get-found row found = rw found refl

  -- What none of the merchant's intents is.
  refuses-unknown :
      first (is_intent_of merchant_id id) db.payment_intents ≡ none
      → (get merchant_id id db ≡ (err (app payment_intent_not_found), db))
        × (confirm merchant_id id db ≡ (err (app payment_intent_not_found), db))
        × (cancel merchant_id id db ≡ (err (app payment_intent_not_found), db))
  unfolding get find_by_id find_by_id_for_update confirm confirm_body cancel cancel_body
      with_transaction
  refuses-unknown unknown = (rw unknown refl, rw unknown refl, rw unknown refl)

first_other :
    (stranger id : ℕ) (row : PaymentIntentRow) (rows : List PaymentIntentRow)
    → row.merchant_id ≢ stranger
    → first (is_intent_of stranger id) (row ∷ rows) ≡ first (is_intent_of stranger id) rows
first_other stranger id row rows other = ground (arith, other)

-- An intent that a merchant has created is there for that merchant to read, as it was answered, and another
-- merchant who names its id, with no intent of that id before, can neither read nor confirm nor cancel it: each
-- of the three answers that there is none, and changes nothing.
pub created_for_one :
    (merchant_id stranger : ℕ) (dto : CreatePaymentIntentDto) (db : Db) (p : PublicPaymentIntent)
    (after : Db)
    → create merchant_id dto db ≡ (ok p, after)
    → merchant_id ≢ stranger
    → first (is_intent_of stranger p.id) db.payment_intents ≡ none
    → (get merchant_id p.id after ≡ (ok p, after))
      × (get stranger p.id after ≡ (err (app payment_intent_not_found), after))
      × (confirm stranger p.id after ≡ (err (app payment_intent_not_found), after))
      × (cancel stranger p.id after ≡ (err (app payment_intent_not_found), after))
unfolding new_intent to_public_intent
created_for_one merchant_id stranger dto db p after created other fresh =
    let row = new_intent merchant_id dto db in
    let (shown, table) = create-eq-ok merchant_id dto db p after created in
    let id : p.id ≡ row.id = ap (λ (x : PublicPaymentIntent). x.id) shown in
    let found : first (is_intent_of merchant_id p.id) after.payment_intents ≡ some row =
      rw id (rw table (rw (==-refl row.id) (rw (==-refl merchant_id) refl))) in
    let absent : first (is_intent_of stranger p.id) after.payment_intents ≡ none =
      rw table (rw (first_other stranger p.id row db.payment_intents other) fresh) in
    let refused = refuses-unknown after stranger p.id absent in
    (
      get-found after merchant_id p.id row found
          ∙ ap (λ (x : PublicPaymentIntent). (ok x, after)) (sym shown),
      refused.0,
      refused.1,
      refused.2,
    )
