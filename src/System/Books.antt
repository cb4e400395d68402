-- ===== src/System/Books.antt =====
-- The books through the sequences of transactions of System.
use payment_apis.Prelude.{ℕ, ◌≡◌, ◌≢◌, sym, subst, inl, inr, All, Absent}
use payment_apis.Db.{Db}
use payment_apis.Wallet.Deltas.{ids}
use payment_apis.Wallet.Opening.{create-cases}
use payment_apis.Books.{IsBooked, opened-IsBooked}
use payment_apis.Transfer.Conservation.{transfer_rows-conserves}
use payment_apis.Payment.Confirm.{confirm-IsBooked}
use payment_apis.Payout.Sweep.{sweep_one-IsBooked}
use payment_apis.Payout.Process.{reverse_payout-IsBooked}
use payment_apis.Seed.Books.{seed-IsBooked}
use payment_apis.System.{
  Step, transfers, confirms, sweeps, reverses, opens, seeds, elsewhere, Reach, here, next,
}

-- The books say the same of the same two tables.
same-IsBooked :
    (db after : Db)
    → after.wallets ≡ db.wallets
    → after.ledger_entries ≡ db.ledger_entries
    → IsBooked db
    → IsBooked after
same-IsBooked db after wallets entries b = record {
  distinct = rw wallets b.distinct;
  reconciled = rw wallets (rw entries b.reconciled);
}

pub Step-IsBooked : {db after : Db} → Step db after → IsBooked db → IsBooked after
Step-IsBooked {db} (transfers from_row to_row caller dto safe) b =
    (transfer_rows-conserves from_row to_row caller dto db safe b).0
Step-IsBooked {db} (confirms merchant_id id) b = confirm-IsBooked merchant_id id db b
Step-IsBooked {db} (sweeps min_amount w) b = sweep_one-IsBooked min_amount w db b
Step-IsBooked {db} (reverses payout attempts reason) b =
    reverse_payout-IsBooked payout attempts reason db b
Step-IsBooked {db} (opens merchant_id currency fresh unused) b =
    let (entries, cases) = create-cases merchant_id currency db in
    elim cases [
      | inl wallets ↦ same-IsBooked db _ wallets entries b
      | inr (w, id, empty, free, wallets) ↦
          opened-IsBooked db _ w wallets entries empty
            (subst (λ (k : ℕ). Absent k (ids db.wallets)) (sym id) fresh)
            (subst (λ (k : ℕ). All (λ e. e.wallet_id ≢ k) db.ledger_entries) (sym id) unused) b
    ]
Step-IsBooked {db} (seeds password_hash fresh) b = seed-IsBooked password_hash db fresh b
Step-IsBooked {db} (elsewhere after wallets entries) b = same-IsBooked db after wallets entries b

-- However many sessions run, after any sequence of their transactions, transfers of safe integers on rows that they
-- have read before, confirmations, sweeps, reversals of payouts, new wallets and seed data, each committed or rolled back, every
-- balance is what the ledger says, where it was so at the start and the UUIDs of new wallets were new.
pub Reach-IsBooked : {db after : Db} → Reach db after → IsBooked db → IsBooked after
Reach-IsBooked here b = b
Reach-IsBooked (next r step) b = Step-IsBooked step (Reach-IsBooked r b)
