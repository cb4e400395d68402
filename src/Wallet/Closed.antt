-- ===== src/Wallet/Closed.antt =====
-- What `applyDelta` of src/wallets/wallet.repository.ts may do to the table, as the closure of a predicate under it.
use payment_apis.Prelude.{ℕ, ◌≡◌, inl, inr, List}
use payment_apis.Prelude.Int.{ℤ}
use payment_apis.Db.{Db, WalletRow, ok, try_update, Result-cases}
use payment_apis.Wallet.{has_id, add_delta, apply_delta}

abbrev pub IsDeltaClosed : (List WalletRow → Type 0) → Type 0
IsDeltaClosed P =
    (id now : ℕ) (delta : ℤ) (xs ys : List WalletRow)
    → try_update (has_id id) (add_delta now delta) xs ≡ ok ys
    → P xs
    → P ys

-- The predicate, of a database. It is shut, so that a proof finds the parts of a sequence by it.
unfoldable pub Of : (List WalletRow → Type 0) → Db → Type 0
Of P db = P db.wallets

module _ (P : List WalletRow → Type 0) where
  pub of : (db : Db) → P db.wallets → Of P db
  unfolding Of
  of db p = p

  pub from : (db : Db) → Of P db → P db.wallets
  unfolding Of
  from db p = p

  pub same-Of : (db after : Db) → after.wallets ≡ db.wallets → Of P db → Of P after
  unfolding Of
  same-Of db after e p = rw e p

  pub apply_delta-Of :
      IsDeltaClosed P → (id : ℕ) (delta : ℤ) (db : Db) → Of P db → Of P (apply_delta id delta db).1
  unfolding Of apply_delta
  apply_delta-Of deltas id delta db p =
      elim (Result-cases (try_update (has_id id) (add_delta db.now delta) db.wallets)) [
        | inl (ws, e) ↦ rw e (deltas id db.now delta db.wallets ws e p)
        | inr (x, e) ↦ rw e p
      ]
