-- ===== src/Seed/Again.antt =====
-- src/seed.ts is run again.
use Prim.Native.String.{String}
use payment_apis.Prelude.{
  ℕ, suc, ◌≡◌, refl, subst, sym, inl, inr, some, List, [], ◌∷◌, All, first, count, ◌==◌, arith,
  Bool-cases, Option-cases,
}
use payment_apis.Prelude.Int.{pos}
use payment_apis.Db.{
  Db, MerchantRow, WalletRow, ngn, Void, Result, ok, with_transaction, with_transaction-eq-ok,
  try_update, Result-cases, >>=-eq-ok,
}
use payment_apis.Merchant.{has_email, find_by_email}
use payment_apis.Wallet.{has_id, is_held_by, add_delta, apply_delta, find_by_merchant_and_currency}
use payment_apis.Ledger.{create_transaction, add_entry}
use payment_apis.Seed.{
  fund_amount, upserted_merchant, upserted_wallet, fund, fund_once, seed_one, seed_all, seed,
  seed_merchants,
}
use payment_apis.Seed.Grows.{
  Grows, HasEntries, first-any, fund-Grows, seed_one-Grows, Grows-refl, Grows-trans,
}

-- The merchant is there with a wallet that has been funded.
record Seeded (db : Db) (email : String) : Type 0 where
  merchant : MerchantRow
  wallet : WalletRow
  known : first (has_email email) db.merchants ≡ some merchant
  held : first (is_held_by merchant.id ngn) db.wallets ≡ some wallet
  funded : HasEntries wallet.id db.ledger_entries

Seeded-Grows :
    (db after : Db) (email : String) → Grows db after → Seeded db email → Seeded after email
Seeded-Grows db after email g s =
    let (v, held, same) = g.wallets s.merchant.id s.wallet s.held in
    record {
      merchant = s.merchant;
      wallet = v;
      known = g.merchants email s.merchant s.known;
      held = held;
      funded =
          subst (λ id. HasEntries id after.ledger_entries) (sym same)
            (g.entries s.wallet.id s.funded);
    }

-- What a run that finds everything does: it draws the ids that ON CONFLICT leaves unused.
abbrev draws : ℕ → Db → Db
draws n db = record db { drawn = n }

AreSeeded : List String → Db → Type 0
AreSeeded emails db = All (Seeded db) emails

seed_one_again :
    (password_hash email : String) (db : Db)
    → Seeded db email
    → seed_one password_hash email db ≡ (ok tt, draws (suc (suc db.drawn)) db)
unfolding seed_one find_by_email find_by_merchant_and_currency fund_once
seed_one_again password_hash email db s =
    rw
      (
        first-any (has_email email) db.merchants s.merchant s.known,
        s.known,
        first-any (is_held_by s.merchant.id ngn) db.wallets s.wallet s.held,
        s.held,
        s.funded,
      )
      refl

funds :
    (wallet : WalletRow) (db after : Db)
    → fund wallet db ≡ (ok tt, after)
    → HasEntries wallet.id after.ledger_entries
unfolding fund create_transaction add_entry apply_delta
funds wallet db after e =
    elim (Result-cases
      (try_update (has_id wallet.id) (add_delta db.now (pos fund_amount)) db.wallets)) [
        | inl (ws, h) ↦ ground arith
        | inr (x, h) ↦ absurd (ground arith)
      ]

Seeded-by :
    (email : String) (m : MerchantRow) (w : WalletRow) (t after : Db)
    → first (has_email email) t.merchants ≡ some m
    → first (is_held_by m.id ngn) t.wallets ≡ some w
    → Grows t after
    → HasEntries w.id after.ledger_entries
    → Seeded after email
Seeded-by email m w t after known held g funded =
    let (v, held_v, same) = g.wallets m.id w held in
    record {
      merchant = m;
      wallet = v;
      known = g.merchants email m known;
      held = held_v;
      funded = subst (λ id. HasEntries id after.ledger_entries) (sym same) funded;
    }

fund_once-Seeded :
    (email : String) (m : MerchantRow) (w : WalletRow) (t after : Db)
    → first (has_email email) t.merchants ≡ some m
    → first (is_held_by m.id ngn) t.wallets ≡ some w
    → fund_once w (count (λ x. x.wallet_id == w.id) t.ledger_entries) t ≡ (ok tt, after)
    → Seeded after email
unfolding fund_once
fund_once-Seeded email m w t after known held e =
    elim (Bool-cases (count (λ x. x.wallet_id == w.id) t.ledger_entries == 0)) [
      | inl new ↦
          let paid : fund w t ≡ (ok tt, after) = rw new at e in
          Seeded-by email m w t after known held (subst (λ r. Grows t r.1) paid (fund-Grows w t))
            (funds w t after paid)
      | inr funded ↦
          let kept : (ok tt, t) ≡ (ok tt, after) = rw funded at e in
          subst (λ (r : Result Void × Db). Seeded r.1 email) kept
            (Seeded-by email m w t t known held (Grows-refl t) funded)
    ]

seed_one-Seeded :
    (password_hash email : String) (db after : Db)
    → seed_one password_hash email db ≡ (ok tt, after)
    → Seeded after email
unfolding seed_one find_by_email find_by_merchant_and_currency
seed_one-Seeded password_hash email db after e =
    let s = upserted_merchant password_hash email db in
    elim (Option-cases (first (has_email email) s.merchants)) [
      | inl unknown ↦ let h = rw unknown at e in absurd (ground arith)
      | inr (m, known) ↦
          let h = rw known at e in
          let t = upserted_wallet m.id s in
          elim (Option-cases (first (is_held_by m.id ngn) t.wallets)) [
            | inl none_held ↦ let k = rw none_held at h in absurd (ground arith)
            | inr (w, held) ↦ fund_once-Seeded email m w t after known held (rw held at h)
          ]
    ]

seed_all-AreSeeded :
    (password_hash : String) (emails : List String) (db after : Db)
    → seed_all password_hash emails db ≡ (ok tt, after)
    → Grows db after × AreSeeded emails after
unfolding seed_all AreSeeded
seed_all-AreSeeded password_hash [] db after e =
    (subst (λ (r : Result Void × Db). Grows db r.1) e (Grows-refl db), tt)
seed_all-AreSeeded password_hash (email ∷ emails) db after e =
    >>=-eq-ok (seed_one password_hash email) _ db tt after e λ v mid one rest.
      let (grown, skips) = seed_all-AreSeeded password_hash emails mid after rest in
      (
        Grows-trans db mid after
            (subst (λ (r : Result Void × Db). Grows db r.1) one
              (seed_one-Grows password_hash email db))
            grown,
        (
          Seeded-Grows mid after email grown (seed_one-Seeded password_hash email db mid one),
          skips,
        ),
      )

AreSeeded-draws :
    (n : ℕ) (emails : List String) (db : Db) → AreSeeded emails db → AreSeeded emails (draws n db)
unfolding AreSeeded
AreSeeded-draws n [] db s = tt
AreSeeded-draws n (email ∷ emails) db (s, ss) = (
  record {
    merchant = s.merchant;
    wallet = s.wallet;
    known = s.known;
    held = s.held;
    funded = s.funded;
  },
  AreSeeded-draws n emails db ss,
)

seed_all_again :
    (password_hash : String) (emails : List String) (db : Db)
    → AreSeeded emails db
    → (n : ℕ) × (seed_all password_hash emails db ≡ (ok tt, draws n db))
unfolding seed_all AreSeeded
seed_all_again password_hash [] db s = (db.drawn, refl)
seed_all_again password_hash (email ∷ emails) db (s, ss) =
    let (n, e) =
      seed_all_again password_hash emails (draws (suc (suc db.drawn)) db)
        (AreSeeded-draws _ emails db ss) in
    (n, rw (seed_one_again password_hash email db s) e)

-- After a seed that returned, another one, whatever salt its password is hashed with, returns and leaves every
-- table as it is: no merchant or wallet is added, and no wallet is funded twice.
pub seed_twice :
    (password_hash other_hash : String) (db after : Db)
    → seed password_hash db ≡ (ok tt, after)
    → (n : ℕ) × (seed other_hash after ≡ (ok tt, record after { drawn = n }))
unfolding seed with_transaction
seed_twice password_hash other_hash db after e =
    let one = with_transaction-eq-ok (seed_all password_hash seed_merchants) db tt after e in
    let (n, two) =
      seed_all_again other_hash seed_merchants after
        (seed_all-AreSeeded password_hash seed_merchants db after one).1 in
    (n, rw two refl)
