-- ===== src/Wallet/Updates.antt =====
-- The balance updates of src/wallets/wallet.repository.ts when they return: the table changed row by
-- row, and nothing else did.
use payment_apis.Prelude.{ℕ, ◌≡◌, inl, inr, Bool, List, count, arith, ◌==◌}
use payment_apis.Prelude.Int.{ℤ}
use payment_apis.Db.{Db, WalletRow, Void, ok, try_update, Result-cases}
use payment_apis.Db.Updates.{Updated, try_update-Updated}
use payment_apis.Wallet.{
  has_id, has_version, add_delta, add_delta_bump, apply_delta, apply_delta_if_version,
}
use payment_apis.Wallet.Deltas.{Delta, add_delta-Delta, add_delta_bump-Delta}

abbrev pub with_wallets : List WalletRow → Db → Db
with_wallets ws db = record db { wallets = ws }

pub apply_delta-eq-ok :
    (id : ℕ) (delta : ℤ) (db : Db) (v : Void) (after : Db)
    → apply_delta id delta db ≡ (ok v, after)
    → (ws : List WalletRow) × Updated (has_id id) (Delta delta) db.wallets ws
      × (after ≡ with_wallets ws db)
unfolding apply_delta
apply_delta-eq-ok id delta db v after h =
    elim (Result-cases (try_update (has_id id) (add_delta db.now delta) db.wallets)) [
      | inl (ws, e) ↦ (
        ws,
        try_update-Updated (has_id id) (Delta delta) (add_delta db.now delta) db.wallets ws
            (add_delta-Delta db.now delta) e,
        ground arith,
      )
      | inr (x, e) ↦ absurd (ground arith)
    ]

pub apply_delta_if_version-eq-ok :
    (id : ℕ) (delta : ℤ) (version : ℕ) (db : Db) (b : Bool) (after : Db)
    → apply_delta_if_version id delta version db ≡ (ok b, after)
    → (ws : List WalletRow) × Updated (has_version id version) (Delta delta) db.wallets ws
      × (after ≡ with_wallets ws db)
      × ((count (has_version id version) db.wallets == 1) ≡ b)
unfolding apply_delta_if_version
apply_delta_if_version-eq-ok id delta version db b after h =
    elim (Result-cases
      (try_update (has_version id version) (add_delta_bump db.now delta) db.wallets)) [
        | inl (ws, e) ↦ (
          ws,
          try_update-Updated (has_version id version) (Delta delta) (add_delta_bump db.now delta)
              db.wallets ws (add_delta_bump-Delta db.now delta) e,
          ground arith,
          ground arith,
        )
        | inr (x, e) ↦ absurd (ground arith)
      ]
