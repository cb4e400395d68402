-- ===== src/Payment/Lifecycle.antt =====
-- The intents of src/payments/payment.service.ts through any sequence of its operations, by any merchants.
use payment_apis.Prelude.{
  ℕ, ◌≡◌, refl, subst, sym, ◌∙◌, ◌⊎◌, inl, inr, List, [], ◌∷◌, ◌++◌, arith, Absent, Distinct,
  Option-cases, Bool-cases, first, any, leb, ◌==◌,
}
use payment_apis.Prelude.Double.{to_string}
use payment_apis.Db.{Db, PaymentIntentRow, PaymentIntentStatus, bigint_end}
use payment_apis.Wallet.{is_held_by, find_by_merchant_and_currency}
use payment_apis.Payment.{CreatePaymentIntentDto, insert, create, confirm, cancel}
use payment_apis.Payment.Lookup.{new_intent}
use payment_apis.Payment.Once.{
  Progress, Evolves, Evolves-refl, intent_ids, confirm-Evolves, cancel-Evolves,
}

-- One operation, whether it returns or throws, or a change that leaves the intents alone. The UUID of a new
-- intent is new.
pub data Step (db : Db) : Db → Type 0 where
  creates :
      (merchant_id : ℕ) (dto : CreatePaymentIntentDto)
      → Absent (db.uuid db.drawn) (intent_ids db.payment_intents)
      → Step db (create merchant_id dto db).1
  confirms : (merchant_id id : ℕ) → Step db (confirm merchant_id id db).1
  cancels : (merchant_id id : ℕ) → Step db (cancel merchant_id id db).1
  elsewhere : (after : Db) → after.payment_intents ≡ db.payment_intents → Step db after

pub data Reach (db : Db) : Db → Type 0 where
  here : Reach db db
  next : {mid after : Db} → Reach db mid → Step mid after → Reach db after

-- The intents from before, evolved, behind new ones.
pub record Follows (before after : List PaymentIntentRow) : Type 0 where
  pub new : List PaymentIntentRow
  pub old : List PaymentIntentRow
  pub split : after ≡ new ++ old
  pub evolved : Evolves before old
  pub distinct : Distinct (intent_ids after)

Evolves-ids : (rs qs : List PaymentIntentRow) → Evolves rs qs → intent_ids qs ≡ intent_ids rs
Evolves-ids [] [] e = refl
Evolves-ids [] (q ∷ qs) e = elim e [ ]
Evolves-ids (r ∷ rs) [] e = elim e [ ]
Evolves-ids (r ∷ rs) (q ∷ qs) (id, owner, amount, currency, step, rest) =
    ground (arith, Evolves-ids rs qs rest)

Progress-trans : (s t u : PaymentIntentStatus) → Progress s t → Progress t u → Progress s u
Progress-trans s t u (inl same) step =
    subst (λ (x : PaymentIntentStatus). Progress x u) (sym same) step
Progress-trans s t u (inr waiting) step = inr waiting

Evolves-trans : (rs qs ps : List PaymentIntentRow) → Evolves rs qs → Evolves qs ps → Evolves rs ps
Evolves-trans [] [] ps a b = b
Evolves-trans [] (q ∷ qs) ps a b = elim a [ ]
Evolves-trans (r ∷ rs) [] ps a b = elim a [ ]
Evolves-trans (r ∷ rs) (q ∷ qs) [] a b = elim b [ ]
Evolves-trans (r ∷ rs) (q ∷ qs) (p ∷ ps) (i, m, n, c, s, a) (i', m', n', c', s', b) = (
  i' ∙ i,
  m' ∙ m,
  n' ∙ n,
  c' ∙ c,
  Progress-trans r.status q.status p.status s s',
  Evolves-trans rs qs ps a b,
)

-- What evolves from a table in two parts is in two such parts.
Evolves-append :
    (xs ys zs : List PaymentIntentRow)
    → Evolves (xs ++ ys) zs
    → (front : List PaymentIntentRow) × (back : List PaymentIntentRow) × (zs ≡ front ++ back)
      × Evolves ys back
Evolves-append [] ys zs e = ([], zs, refl, e)
Evolves-append (x ∷ xs) ys [] e = elim e [ ]
Evolves-append (x ∷ xs) ys (z ∷ zs) (i, m, n, c, s, e) =
    let (front, back, split, rest) = Evolves-append xs ys zs e in (z ∷ front, back, cc, rest)

Follows-Evolves :
    (before mid after : List PaymentIntentRow)
    → Follows before mid
    → Evolves mid after
    → Follows before after
Follows-Evolves before mid after f e =
    let (front, back, split, rest) =
      Evolves-append f.new f.old after (subst (λ ms. Evolves ms after) f.split e) in
    record {
      new = front;
      old = back;
      split = split;
      evolved = Evolves-trans before f.old back f.evolved rest;
      distinct = subst Distinct (sym (Evolves-ids mid after e)) f.distinct;
    }

create-cases :
    (merchant_id : ℕ) (dto : CreatePaymentIntentDto) (db : Db)
    → ((create merchant_id dto db).1.payment_intents ≡ db.payment_intents)
      ⊎ ((row : PaymentIntentRow) × (row.id ≡ db.uuid db.drawn)
          × ((create merchant_id dto db).1.payment_intents ≡ row ∷ db.payment_intents))
unfolding new_intent create insert find_by_merchant_and_currency
create-cases merchant_id dto db =
    elim (Option-cases (first (is_held_by merchant_id dto.currency) db.wallets)) [
      | inl homeless ↦ inl (rw homeless refl)
      | inr (wallet, held) ↦ rw held (elim (Bool-cases (leb bigint_end (to_string dto.amount))) [
        | inl large ↦ inl (rw large refl)
        | inr fits ↦ rw fits (elim (Bool-cases (to_string dto.amount == 0)) [
          | inl nothing ↦ inl (rw nothing refl)
          | inr positive ↦
              rw positive (elim (Bool-cases (any (λ m. m.id == merchant_id) db.merchants)) [
                | inl known ↦ inr (new_intent merchant_id dto db, refl, rw known refl)
                | inr stranger ↦ inl (rw stranger refl)
              ])
        ])
      ])
    ]

Step-Follows :
    (before : List PaymentIntentRow) (db after : Db)
    → Step db after
    → Follows before db.payment_intents
    → Follows before after.payment_intents
Step-Follows before db after (creates merchant_id dto fresh) f =
    elim (create-cases merchant_id dto db) [
      | inl same ↦ subst (Follows before) (sym same) f
      | inr (row, id, e) ↦ subst (Follows before) (sym e) record {
        new = row ∷ f.new;
        old = f.old;
        split = cc f.split;
        evolved = f.evolved;
        distinct = (
          subst (λ (k : ℕ). Absent k (intent_ids db.payment_intents)) (sym id) fresh,
          f.distinct,
        );
      }
    ]
Step-Follows before db after (confirms merchant_id id) f =
    Follows-Evolves before _ _ f (confirm-Evolves merchant_id id db f.distinct)
Step-Follows before db after (cancels merchant_id id) f =
    Follows-Evolves before _ _ f (cancel-Evolves merchant_id id db f.distinct)
Step-Follows before db after (elsewhere _ same) f = subst (Follows before) (sym same) f

-- Through any sequence of creations, confirmations and cancellations, by any merchants, that return or throw,
-- between changes that leave the intents alone, the intents from the start stay, in their order, behind the new
-- ones: each keeps its id, owner, amount and currency, and its status leaves waiting once at most. Ids stay
-- distinct, where they were so at the start and the UUID of each new intent was new.
pub Reach-Follows :
    {db after : Db}
    → Reach db after
    → Distinct (intent_ids db.payment_intents)
    → Follows db.payment_intents after.payment_intents
Reach-Follows {db} here d = record {
  new = [];
  old = db.payment_intents;
  split = refl;
  evolved = Evolves-refl db.payment_intents;
  distinct = d;
}
Reach-Follows {db} (next {mid} {after} r step) d =
    Step-Follows db.payment_intents mid after step (Reach-Follows r d)
