-- ===== src/Books.antt =====
-- The books: each wallet's balance (src/wallets/wallet.repository.ts) against the entries that
-- src/ledger/ledger.repository.ts has recorded for it.
use payment_apis.Prelude.{
  ℕ, ◌≡◌, ◌≢◌, refl, sym, subst, ◌∙◌, ap, All, Absent, List, [], ◌∷◌, arith, Distinct, ◌==◌,
  if◌then◌else◌, Bool,
}
use payment_apis.Prelude.Int.{ℤ, pos, neg, ◌+ℤ◌}
use payment_apis.Db.{Db, WalletRow, LedgerEntryRow, Direction, debit, credit}
use payment_apis.Db.Updates.{Updated}
use payment_apis.Wallet.Deltas.{Delta, Targets, Agrees, ids, Updated-Agrees, Updated-ids}

-- What an entry is worth to its wallet.
abbrev pub signed : Direction → ℕ → ℤ
signed debit amount = neg amount
signed credit amount = pos amount

-- Credits less debits of one wallet.
unfoldable pub net : List LedgerEntryRow → ℕ → ℤ
net [] j = pos 0
net (e ∷ es) j = if j == e.wallet_id then net es j +ℤ signed e.direction e.amount else net es j

-- No two wallets share an id, and every balance is what the ledger says.
pub record IsBooked (db : Db) : Type 0 where
  pub distinct : Distinct (ids db.wallets)
  pub reconciled : Agrees (net db.ledger_entries) db.wallets

-- An entry and the balance update that goes with it keep the agreement.
pub post-Agrees :
    (p : WalletRow → Bool) (e : LedgerEntryRow) (es : List LedgerEntryRow) (xs ys : List WalletRow)
    → Targets p e.wallet_id xs
    → Updated p (Delta (signed e.direction e.amount)) xs ys
    → Agrees (net es) xs
    → Agrees (net (e ∷ es)) ys
unfolding net
post-Agrees p e es xs ys t u a =
    Updated-Agrees p (signed e.direction e.amount) e.wallet_id (net es) (net (e ∷ es)) xs ys
      (ground arith) (λ j ne. rw ne) t u a

pub Updated-Distinct :
    (p : WalletRow → Bool) (delta : ℤ) (xs ys : List WalletRow)
    → Updated p (Delta delta) xs ys
    → Distinct (ids xs)
    → Distinct (ids ys)
Updated-Distinct p delta xs ys u d = rw (Updated-ids p delta xs ys u) d

net-Absent : (es : List LedgerEntryRow) (k : ℕ) → All (λ e. e.wallet_id ≢ k) es → net es k ≡ pos 0
unfolding net
net-Absent [] k a = refl
net-Absent (e ∷ es) k a = ground (arith, net-Absent es k a.1, a.0)

-- A new wallet that no entry names.
pub opened-IsBooked :
    (db after : Db) (w : WalletRow)
    → after.wallets ≡ w ∷ db.wallets
    → after.ledger_entries ≡ db.ledger_entries
    → w.balance ≡ 0
    → Absent w.id (ids db.wallets)
    → All (λ e. e.wallet_id ≢ w.id) db.ledger_entries
    → IsBooked db
    → IsBooked after
opened-IsBooked db after w wallets entries empty new unused b = record {
  distinct = rw wallets (new, b.distinct);
  reconciled =
      subst (λ (es : List LedgerEntryRow). Agrees (net es) after.wallets) (sym entries)
        (rw wallets (ap pos empty ∙ sym (net-Absent db.ledger_entries w.id unused), b.reconciled));
}
