-- ===== src/Seed/Books.antt =====
-- The seed data of src/seed.ts and the books.
use Prim.Native.String.{String}
use payment_apis.Prelude.{
  ℕ, suc, ◌≤◌, ◌≡◌, ◌≢◌, refl, subst, inl, inr, some, Bool, List, [], ◌∷◌, All, Absent, first,
  count, any, ◌==◌, arith, Bool-cases, Option-cases,
}
use payment_apis.Prelude.Int.{pos}
use payment_apis.Db.{
  Db, WalletRow, LedgerEntryRow, Direction, ngn, Void, Result, ok, err, resume, settle,
  with_transaction, try_update, Result-cases,
}
use payment_apis.Db.Updates.{try_update-Updated}
use payment_apis.Merchant.{has_email, find_by_email}
use payment_apis.Wallet.{has_id, is_held_by, add_delta, apply_delta, find_by_merchant_and_currency}
use payment_apis.Wallet.Deltas.{ids, Delta, add_delta-Delta, has_id-Targets, Updated-ids}
use payment_apis.Ledger.{create_transaction, add_entry}
use payment_apis.Books.{IsBooked, post-Agrees, Updated-Distinct, opened-IsBooked}
use payment_apis.Seed.{
  fund_amount, upserted_merchant, upserted_wallet, fund, fund_once, seed_one, seed_all, seed,
  seed_merchants,
}

-- The UUIDs that are not drawn yet differ from each other and from those of wallets.
pub record IsFresh (db : Db) : Type 0 where
  pub unused : (k : ℕ) → db.drawn ≤ k → Absent (db.uuid k) (ids db.wallets)
  pub unnamed : (k : ℕ) → db.drawn ≤ k → All (λ e. e.wallet_id ≢ db.uuid k) db.ledger_entries
  pub injective : (j k : ℕ) → db.uuid j ≡ db.uuid k → j ≡ k

Kept : Db → Type 0
Kept db = IsBooked db × IsFresh db

-- What holds of a database that is committed.
Holds : Result Void × Db → Type 0
Holds (ok v, db) = Kept db
Holds (err e, db) = Unit

merchant-Kept :
    (password_hash email : String) (db : Db)
    → Kept db
    → Kept (upserted_merchant password_hash email db)
unfolding Kept
merchant-Kept password_hash email db (b, f) = (
  record { distinct = b.distinct; reconciled = b.reconciled },
  record {
    unused = λ k h. f.unused k (omega (arith, h));
    unnamed = λ k h. f.unnamed k (omega (arith, h));
    injective = f.injective;
  },
)

wallet-Kept : (merchant_id : ℕ) (db : Db) → Kept db → Kept (upserted_wallet merchant_id db)
unfolding Kept
wallet-Kept merchant_id db (b, f) =
    elim (Bool-cases (any (is_held_by merchant_id ngn) db.wallets)) [
      | inl held ↦ rw held (
        record { distinct = b.distinct; reconciled = b.reconciled },
        record {
          unused = λ k h. f.unused k (omega (arith, h));
          unnamed = λ k h. f.unnamed k (omega (arith, h));
          injective = f.injective;
        },
      )
      | inr free ↦ rw free (
        opened-IsBooked db _ _ refl refl refl (f.unused db.drawn (omega arith))
            (f.unnamed db.drawn (omega arith)) b,
        record {
          unused = λ k h. (
            λ e. absurd (omega (arith, h, f.injective db.drawn k e)),
            f.unused k (omega (arith, h)),
          );
          unnamed = λ k h. f.unnamed k (omega (arith, h));
          injective = f.injective;
        },
      )
    ]

abbrev deposit_entry : WalletRow → Db → LedgerEntryRow
deposit_entry wallet db = record {
  id = db.uuid (suc db.drawn);
  transaction_id = db.uuid db.drawn;
  wallet_id = wallet.id;
  direction = Direction.credit;
  amount = fund_amount;
  currency = ngn;
  created_at = db.now;
}

first-Absent :
    (k : ℕ) (p : WalletRow → Bool) (ws : List WalletRow) (w : WalletRow)
    → Absent k (ids ws)
    → first p ws ≡ some w
    → w.id ≢ k
first-Absent k p [] w a e = absurd (cc)
first-Absent k p (x ∷ ws) w a e = elim (Bool-cases (p x)) [
  | inl hit ↦ let same : x ≡ w = ground arith in subst (λ (y : WalletRow). y.id ≢ k) same a.0
  | inr miss ↦ first-Absent k p ws w a.1 (rw miss at e)
]

fund-Holds :
    (wallet : WalletRow) (merchant_id : ℕ) (db : Db)
    → first (is_held_by merchant_id ngn) db.wallets ≡ some wallet
    → Kept db
    → Holds (fund wallet db)
unfolding Kept Holds fund create_transaction add_entry apply_delta
fund-Holds wallet merchant_id db held (b, f) =
    elim (Result-cases
      (try_update (has_id wallet.id) (add_delta db.now (pos fund_amount)) db.wallets)) [
        | inr (x, e) ↦ rw e tt
        | inl (ws, e) ↦
            let u =
              try_update-Updated (has_id wallet.id) (Delta (pos fund_amount))
                (add_delta db.now (pos fund_amount)) db.wallets ws
                (add_delta-Delta db.now (pos fund_amount)) e in
            rw e (
              record {
                distinct =
                    Updated-Distinct (has_id wallet.id) (pos fund_amount) db.wallets ws u
                      b.distinct;
                reconciled =
                    post-Agrees (has_id wallet.id) (deposit_entry wallet db) db.ledger_entries
                      db.wallets ws (has_id-Targets wallet.id db.wallets) u b.reconciled;
              },
              record {
                unused = λ k h.
                    rw (Updated-ids (has_id wallet.id) (pos fund_amount) db.wallets ws u)
                      (f.unused k (omega (arith, h)));
                unnamed = λ k h. (
                  first-Absent (db.uuid k) (is_held_by merchant_id ngn) db.wallets wallet
                      (f.unused k (omega (arith, h))) held,
                  f.unnamed k (omega (arith, h)),
                );
                injective = f.injective;
              },
            )
      ]

seed_one-Holds :
    (password_hash email : String) (db : Db) → Kept db → Holds (seed_one password_hash email db)
unfolding Holds seed_one fund_once find_by_email find_by_merchant_and_currency
seed_one-Holds password_hash email db kept =
    let s = upserted_merchant password_hash email db in
    elim (Option-cases (first (has_email email) s.merchants)) [
      | inl none_found ↦ rw none_found tt
      | inr (merchant, e) ↦ rw e (
          let t = upserted_wallet merchant.id s in
          let kept_t = wallet-Kept merchant.id s (merchant-Kept password_hash email db kept) in
          elim (Option-cases (first (is_held_by merchant.id ngn) t.wallets)) [
            | inl none_held ↦ rw none_held tt
            | inr (wallet, held) ↦
                rw held
                  (elim (Bool-cases (count (λ x. x.wallet_id == wallet.id) t.ledger_entries == 0)) [
                    | inl new ↦ rw new (fund-Holds wallet merchant.id t held kept_t)
                    | inr funded ↦ rw funded kept_t
                  ])
          ])
    ]

resume-Holds :
    (rest : Void → Db → Result Void × Db) (r : Result Void × Db)
    → Holds r
    → ((s : Db) → Kept s → Holds (rest tt s))
    → Holds (resume rest r)
unfolding Holds
resume-Holds rest (ok v, s) h f = f s h
resume-Holds rest (err e, s) h f = tt

seed_all-Holds :
    (password_hash : String) (emails : List String) (db : Db)
    → Kept db
    → Holds (seed_all password_hash emails db)
unfolding seed_all Holds
seed_all-Holds password_hash [] db kept = kept
seed_all-Holds password_hash (email ∷ emails) db kept =
    resume-Holds _ (seed_one password_hash email db) (seed_one-Holds password_hash email db kept)
      (λ s k. seed_all-Holds password_hash emails s k)

settle-Kept : (db : Db) (r : Result Void × Db) → Kept db → Holds r → Kept (settle db r).1
unfolding Holds
settle-Kept db (ok v, s) kept h = h
settle-Kept db (err e, s) kept h = kept

-- Seeding keeps the books, committed or rolled back, where the UUIDs to come are new.
pub seed-IsBooked :
    (password_hash : String) (db : Db)
    → IsFresh db
    → IsBooked db
    → IsBooked (seed password_hash db).1
unfolding seed with_transaction Kept
seed-IsBooked password_hash db f b =
    (settle-Kept db (seed_all password_hash seed_merchants db) (b, f)
      (seed_all-Holds password_hash seed_merchants db (b, f))).0
