-- ===== src/Seed/Grows.antt =====
-- What src/seed.ts looks for in the tables, before and after its statements.
use Prim.Native.String.{String}
use payment_apis.Prelude.{
  ℕ, ◌≡◌, refl, subst, inl, inr, Option, none, some, Bool, true, false, List, [], ◌∷◌, first, count,
  any, ◌==◌, if◌then◌else◌, arith, Bool-cases, Option-cases,
}
use text.Mathlib.TextEquality.{eq_iff}
use payment_apis.Prelude.Int.{ℤ, pos}
use payment_apis.Db.{Db, MerchantRow, WalletRow, LedgerEntryRow, ngn, try_update, Result-cases}
use payment_apis.Db.Updates.{Updated, try_update-Updated}
use payment_apis.Merchant.{has_email, find_by_email}
use payment_apis.Wallet.{has_id, is_held_by, add_delta, apply_delta, find_by_merchant_and_currency}
use payment_apis.Wallet.Deltas.{Delta, add_delta-Delta}
use payment_apis.Ledger.{create_transaction, add_entry}
use payment_apis.Seed.{
  fund_amount, upserted_merchant, upserted_wallet, found, fund, fund_once, seed_one,
}

-- `count > 0`
abbrev pub HasEntries : ℕ → List LedgerEntryRow → Type 0
HasEntries id entries = (count (λ x. x.wallet_id == id) entries == 0) ≡ false

-- The merchant of an email, the wallet of a merchant and its entries, once there, stay.
pub record Grows (db after : Db) : Type 0 where
  pub merchants :
      (email : String) (m : MerchantRow)
      → first (has_email email) db.merchants ≡ some m
      → first (has_email email) after.merchants ≡ some m
  pub wallets :
      (merchant_id : ℕ) (w : WalletRow)
      → first (is_held_by merchant_id ngn) db.wallets ≡ some w
      → (v : WalletRow) × (first (is_held_by merchant_id ngn) after.wallets ≡ some v)
        × (v.id ≡ w.id)
  pub entries : (id : ℕ) → HasEntries id db.ledger_entries → HasEntries id after.ledger_entries

pub Grows-refl : (db : Db) → Grows db db
Grows-refl db = record {
  merchants = λ email m e. e;
  wallets = λ merchant_id w e. (w, e, refl);
  entries = λ id h. h;
}

pub Grows-trans : (a b c : Db) → Grows a b → Grows b c → Grows a c
Grows-trans a b c g h = record {
  merchants = λ email m e. h.merchants email m (g.merchants email m e);
  wallets = λ merchant_id w e.
      let (v, held, same) = g.wallets merchant_id w e in
      let (u, held_u, same_u) = h.wallets merchant_id v held in (u, held_u, ground arith);
  entries = λ id k. h.entries id (g.entries id k);
}

pub first-any :
    {A : Type 0} (p : A → Bool) (xs : List A) (a : A) → first p xs ≡ some a → any p xs ≡ true
first-any p [] a e = cc
first-any p (x ∷ xs) a e = ground (arith, first-any p xs a)

-- A row that is inserted unless one like it is there hides none.
upserted-first :
    {A : Type 0} (p q : A → Bool) (row a : A) (xs : List A)
    → (p row ≡ true → any q xs ≡ any p xs)
    → first p xs ≡ some a
    → first p (if any q xs then xs else row ∷ xs) ≡ some a
upserted-first p q row a xs like e = elim (Bool-cases (any q xs)) [
  | inl there ↦ rw there e
  | inr new ↦ rw new (elim (Bool-cases (p row)) [
    | inl hit ↦ let known = first-any p xs a e in let same = like hit in absurd (cc)
    | inr miss ↦ rw miss e
  ])
]

held-Delta :
    (p : WalletRow → Bool) (delta : ℤ) (merchant_id : ℕ) (xs ys : List WalletRow) (w : WalletRow)
    → Updated p (Delta delta) xs ys
    → first (is_held_by merchant_id ngn) xs ≡ some w
    → (v : WalletRow) × (first (is_held_by merchant_id ngn) ys ≡ some v) × (v.id ≡ w.id)
held-Delta p delta merchant_id [] ys w u e = absurd (cc)
held-Delta p delta merchant_id (x ∷ xs) [] w u e = elim u [ ]
held-Delta p delta merchant_id (x ∷ xs) (y ∷ ys) w (c, u) e =
    elim (Bool-cases (is_held_by merchant_id ngn x)) [
      | inl hit ↦ (y, ground arith, ground arith)
      | inr miss ↦
          let (v, held, same) = held-Delta p delta merchant_id xs ys w u (rw miss at e) in
          (v, ground arith, same)
    ]

merchant-Grows :
    (password_hash email : String) (db : Db) → Grows db (upserted_merchant password_hash email db)
merchant-Grows password_hash email db = record {
  merchants = λ other m e.
      upserted-first (has_email other) (has_email email) _ m db.merchants
        (λ same.
          subst (λ o. any (has_email email) db.merchants ≡ any (has_email o) db.merchants)
            ((eq_iff email other).0 same) refl)
        e;
  wallets = λ merchant_id w e. (w, e, refl);
  entries = λ id h. h;
}

wallet-Grows : (merchant_id : ℕ) (db : Db) → Grows db (upserted_wallet merchant_id db)
wallet-Grows merchant_id db = record {
  merchants = λ email m e. e;
  wallets = λ other w e. (
    w,
    upserted-first (is_held_by other ngn) (is_held_by merchant_id ngn) _ w db.wallets
        (λ same.
          let eq : merchant_id ≡ other = ground arith in
          subst
            (λ k. any (is_held_by merchant_id ngn) db.wallets ≡ any (is_held_by k ngn) db.wallets)
            eq refl)
        e,
    refl,
  );
  entries = λ id h. h;
}

pub fund-Grows : (wallet : WalletRow) (db : Db) → Grows db (fund wallet db).1
unfolding fund create_transaction add_entry apply_delta
fund-Grows wallet db =
    elim (Result-cases
      (try_update (has_id wallet.id) (add_delta db.now (pos fund_amount)) db.wallets)) [
        | inr (x, e) ↦ rw e (record {
          merchants = λ email m f. f;
          wallets = λ merchant_id w f. (w, f, refl);
          entries = λ id h. ground arith;
        })
        | inl (ws, e) ↦
            let u =
              try_update-Updated (has_id wallet.id) (Delta (pos fund_amount))
                (add_delta db.now (pos fund_amount)) db.wallets ws
                (add_delta-Delta db.now (pos fund_amount)) e in
            rw e (record {
              merchants = λ email m f. f;
              wallets = λ merchant_id w f.
                  held-Delta (has_id wallet.id) (pos fund_amount) merchant_id db.wallets ws w u f;
              entries = λ id h. ground arith;
            })
      ]

found-state : {A : Type 0} (o : Option A) (db : Db) → (found o db).1 ≡ db
found-state none db = refl
found-state (some a) db = refl

fund_once-Grows :
    (wallet : WalletRow) (entries : ℕ) (db : Db) → Grows db (fund_once wallet entries db).1
unfolding fund_once
fund_once-Grows wallet entries db = elim (Bool-cases (entries == 0)) [
  | inl new ↦ rw new (fund-Grows wallet db)
  | inr funded ↦ rw funded (Grows-refl db)
]

pub seed_one-Grows :
    (password_hash email : String) (db : Db) → Grows db (seed_one password_hash email db).1
unfolding seed_one find_by_email find_by_merchant_and_currency
seed_one-Grows password_hash email db =
    let s = upserted_merchant password_hash email db in
    let grown = merchant-Grows password_hash email db in
    elim (Option-cases (first (has_email email) s.merchants)) [
      | inl unknown ↦ rw unknown grown
      | inr (merchant, e) ↦ rw e (
          let t = upserted_wallet merchant.id s in
          let grown_t = Grows-trans db s t grown (wallet-Grows merchant.id s) in
          elim (Option-cases (first (is_held_by merchant.id ngn) t.wallets)) [
            | inl none_held ↦ rw none_held grown_t
            | inr (wallet, held) ↦ rw held (
                Grows-trans db t _ grown_t (
                  fund_once-Grows wallet (count (λ x. x.wallet_id == wallet.id) t.ledger_entries)
                    t))
          ])
    ]
