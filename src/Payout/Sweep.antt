-- ===== src/Payout/Sweep.antt =====
-- `sweep` of src/payouts/payout.service.ts: one wallet's transaction, and the loop.
use payment_apis.Prelude.{
  ℕ, suc, ◌≤◌, ◌<◌, ◌≡◌, subst, inl, inr, Bool, true, false, Option, none, some, List, [], ◌∷◌,
  first, arith, first-passes, ltb, ◌==◌, Bool-cases, Option-cases,
}
use payment_apis.Prelude.Int.{neg, pos-neg_parts}
use payment_apis.Errors.{Error}
use payment_apis.Db.{
  Db, WalletRow, PayoutRow, PayoutStatus, LedgerEntryRow, TransactionRow, TransactionType,
  Direction, Result, ok, err, try_update, with_transaction, settle, Result-cases, >>=-keeps,
}
use payment_apis.Db.Updates.{try_update-Updated}
use payment_apis.Wallet.{has_id, add_delta, apply_delta, find_by_id_for_update}
use payment_apis.Wallet.Deltas.{Delta, Updated-self, add_delta-Delta, has_id-Targets}
use payment_apis.Ledger.{create_transaction, add_entry}
use payment_apis.Books.{IsBooked, post-Agrees, Updated-Distinct}
use payment_apis.Payout.{
  SettleableWallet, create_pending, debit_wallet, sweep_locked, sweep_one, sweep_all, sweep,
  list_settleable_wallets,
}

module _ (wallet : WalletRow) (account_id : ℕ) (db : Db) where
  abbrev pub payout_transaction : TransactionRow
  payout_transaction = record {
    id = db.uuid db.drawn;
    type = TransactionType.payout;
    created_at = db.now;
  }

  abbrev pub payout_entry : LedgerEntryRow
  payout_entry = record {
    id = db.uuid (suc db.drawn);
    transaction_id = db.uuid db.drawn;
    wallet_id = wallet.id;
    direction = Direction.debit;
    amount = wallet.balance;
    currency = wallet.currency;
    created_at = db.now;
  }

  -- The payout of the whole balance, bound to the account.
  abbrev pub new_payout : PayoutRow
  new_payout = record {
    id = db.uuid (suc (suc db.drawn));
    merchant_id = wallet.merchant_id;
    wallet_id = wallet.id;
    payout_account_id = account_id;
    currency = wallet.currency;
    amount = wallet.balance;
    status = PayoutStatus.pending;
    transaction_id = db.uuid db.drawn;
    reversal_transaction_id = none;
    attempts = 0;
    next_attempt_at = db.now;
    failure_reason = none;
    created_at = db.now;
    updated_at = db.now;
  }

  abbrev pub swept : List WalletRow → Db
  swept ws = record db {
    drawn = suc (suc (suc db.drawn));
    wallets = ws;
    transactions = payout_transaction ∷ db.transactions;
    ledger_entries = payout_entry ∷ db.ledger_entries;
    payouts = new_payout ∷ db.payouts;
  }

  -- `debit_wallet` throws, or it debits the wallet and leaves `swept`.
  debit_wallet-cases {ℓ} :
      (P : Result Bool × Db → Type ℓ)
      → ((e : Error) (s : Db) → P (err e, s))
      → ((ws : List WalletRow)
          → try_update (has_id wallet.id) (add_delta db.now (neg wallet.balance)) db.wallets ≡ ok ws
          → P (ok true, swept ws))
      → P (debit_wallet wallet account_id db)
  unfolding debit_wallet create_transaction add_entry apply_delta create_pending
  debit_wallet-cases P refuse accept = elim (Bool-cases (wallet.balance == 0)) [
    | inl nothing ↦ rw nothing (refuse _ _)
    | inr something ↦
        rw something
          (elim (Result-cases
            (try_update (has_id wallet.id) (add_delta db.now (neg wallet.balance)) db.wallets)) [
              | inl (ws, e) ↦ rw e (accept ws e)
              | inr (x, e) ↦ rw e (refuse x _)
            ])
  ]

module _ (min_amount : ℕ) (w : SettleableWallet) (db : Db) where
  -- One transaction of the sweep throws or skips, and changes nothing, or it leaves `swept`.
  pub sweep_one-cases {ℓ} :
      (P : Result Bool × Db → Type ℓ)
      → ((e : Error) → P (err e, db))
      → P (ok false, db)
      → ((wallet : WalletRow) (ws : List WalletRow)
          → first (has_id w.wallet_id) db.wallets ≡ some wallet
          → min_amount ≤ wallet.balance
          → try_update (has_id wallet.id) (add_delta db.now (neg wallet.balance)) db.wallets ≡ ok ws
          → P (ok true, swept wallet w.account_id db ws))
      → P (sweep_one min_amount w db)
  unfolding sweep_one with_transaction find_by_id_for_update sweep_locked
  sweep_one-cases P refuse skip accept =
      elim (Option-cases (first (has_id w.wallet_id) db.wallets)) [
        | inl gone ↦ rw gone skip
        | inr (wallet, found) ↦ rw found (elim (Bool-cases (ltb wallet.balance min_amount)) [
          | inl small ↦ rw small skip
          | inr worth ↦ rw worth (
              debit_wallet-cases wallet w.account_id db (λ r. P (settle db r)) (λ e s. refuse e)
                (λ ws updated. accept wallet ws found (ground arith) updated))
        ])
      ]

  -- Settling one wallet keeps the books, however it ends.
  pub sweep_one-IsBooked : IsBooked db → IsBooked (sweep_one min_amount w db).1
  sweep_one-IsBooked b =
      sweep_one-cases (λ r. IsBooked r.1) (λ e. b) b
        λ wallet ws found worth updated.
          let u =
            try_update-Updated (has_id wallet.id) (Delta (neg wallet.balance))
              (add_delta db.now (neg wallet.balance)) db.wallets ws
              (add_delta-Delta db.now (neg wallet.balance)) updated in
          record {
            distinct =
                Updated-Distinct (has_id wallet.id) (neg wallet.balance) db.wallets ws u b.distinct;
            reconciled =
                post-Agrees (has_id wallet.id) (payout_entry wallet w.account_id db)
                  db.ledger_entries db.wallets ws (has_id-Targets wallet.id db.wallets) u
                  b.reconciled;
          }

sweep_all-IsBooked :
    (others : ℕ → Db → Db) (min_amount n : ℕ) (ws : List SettleableWallet) (db : Db)
    → ((k : ℕ) (s : Db) → IsBooked s → IsBooked (others k s))
    → IsBooked db
    → IsBooked (sweep_all others min_amount n ws db).1
unfolding sweep_all
sweep_all-IsBooked others min_amount n [] db honest b = b
sweep_all-IsBooked others min_amount n (w ∷ ws) db honest b =
    >>=-keeps IsBooked (sweep_one min_amount w) _ (others n db)
      (sweep_one-IsBooked min_amount w (others n db) (honest n db b))
      (λ did_create s p.
        >>=-keeps IsBooked (sweep_all others min_amount (suc n) ws) _ s
          (sweep_all-IsBooked others min_amount (suc n) ws s honest p) (λ created t q. q))

-- A sweep, of all merchants or of one, keeps the books if the other sessions do between its
-- transactions; a sweep that fails midway does too.
pub sweep-IsBooked :
    (others : ℕ → Db → Db) (min_amount : ℕ) (merchant_id : Option ℕ) (db : Db)
    → ((k : ℕ) (s : Db) → IsBooked s → IsBooked (others k s))
    → IsBooked db
    → IsBooked (sweep others min_amount merchant_id db).1
unfolding sweep list_settleable_wallets
sweep-IsBooked others min_amount merchant_id db honest b =
    sweep_all-IsBooked others min_amount 0 _ db honest b

-- A transaction on an emptied wallet.
sweep_one-empty :
    (min_amount : ℕ) (w : SettleableWallet) (wallet : WalletRow) (db : Db)
    → first (has_id w.wallet_id) db.wallets ≡ some wallet
    → wallet.balance < min_amount
    → sweep_one min_amount w db ≡ (ok false, db)
unfolding sweep_one with_transaction find_by_id_for_update sweep_locked
sweep_one-empty min_amount w wallet db found small =
    let low : ltb wallet.balance min_amount ≡ true = ground arith in rw found (rw low)

-- What a wallet has after its whole balance was taken.
emptied :
    (id now : ℕ) (wallet : WalletRow) (xs ys : List WalletRow)
    → first (has_id id) xs ≡ some wallet
    → try_update (has_id wallet.id) (add_delta now (neg wallet.balance)) xs ≡ ok ys
    → (w' : WalletRow) × (first (has_id id) ys ≡ some w') × (w'.balance ≡ 0)
emptied id now wallet xs ys found e =
    let same : wallet.id ≡ id = ground (arith, first-passes (has_id id) xs wallet found) in
    let (w', again, moved) =
      Updated-self (has_id id) (neg wallet.balance) id wallet xs ys (has_id-Targets id xs) found (
        try_update-Updated (has_id id) (Delta (neg wallet.balance))
          (add_delta now (neg wallet.balance)) xs ys (add_delta-Delta now (neg wallet.balance))
          (rw same at e)) in
    (w', again, omega (arith, pos-neg_parts wallet.balance w'.balance wallet.balance moved.moved))

-- A sweep empties a wallet once. After a transaction that created a payout, where the least amount
-- worth settling is positive, the same transaction run again creates none and changes nothing.
pub sweep_one_once :
    (min_amount : ℕ) (w : SettleableWallet) (db after : Db)
    → 0 < min_amount
    → sweep_one min_amount w db ≡ (ok true, after)
    → sweep_one min_amount w after ≡ (ok false, after)
sweep_one_once min_amount w db after positive =
    sweep_one-cases min_amount w db
      (λ r. r ≡ (ok true, after) → sweep_one min_amount w after ≡ (ok false, after))
      (λ e h. absurd (ground arith)) (λ h. absurd (ground arith))
      λ wallet ws found worth updated h.
        subst (λ (s : Db). sweep_one min_amount w s ≡ (ok false, s)) (ground arith)
          (let (w', again, nothing) =
              emptied w.wallet_id db.now wallet db.wallets ws found updated in
            sweep_one-empty min_amount w w' (swept wallet w.account_id db ws) again (omega arith))
