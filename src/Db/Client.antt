-- ===== src/Db/Client.antt =====
-- `withTransaction` of src/db.ts down to its client: the connection from the pool, BEGIN, COMMIT, ROLLBACK and the
-- release, each of which but the last may fail.
pub mod Atomic
use payment_apis.Prelude.{
  ℕ, suc, ◌-◌, ◌≡◌, refl, ◌⊎◌, inl, inr, Option, none, some, Bool, true, false, arith, Bool-cases,
  Option-cases, if◌then◌else◌,
}
use payment_apis.Errors.{Error}
use payment_apis.Db.Rows.{Db}
use payment_apis.Db.Statement.{Result, ok, err, Exec, with_transaction, settle}

-- What the calls of the client throw. A COMMIT whose answer does not come may have been executed.
pub record Outages : Type 0 where
  pub connect : Option Error
  pub begin : Option Error
  pub commit : Option (Error × Bool)
  pub rollback : Option Error

-- How many clients are taken from the pool, and what is committed.
pub record Server : Type 0 where
  pub taken : ℕ
  pub db : Db

-- `await client.query("COMMIT")`, from the committed state and the transaction's own.
pub committing : {A : Type 0} → Option (Error × Bool) → A → Db → Db → Result A × Db
committing none result before own = (ok result, own)
committing (some (e, executed)) result before own = (err e, if executed then own else before)

-- What follows BEGIN in the `try`.
pub running : {A : Type 0} → Option (Error × Bool) → Db → Result A × Db → Result A × Db
running commit before (ok result, own) = committing commit result before own
running commit before (err e, own) = (err e, before)

-- The `try`
pub trying : {A : Type 0} → Outages → Exec A → Exec A
trying outages fn db = elim outages.begin [
  | some e ↦ (err e, db)
  | none ↦ running outages.commit db (fn db)
]

-- The `catch`: the error of a ROLLBACK that throws takes the place of the one that was caught.
pub catching : {A : Type 0} → Option Error → Result A × Db → Result A × Db
catching rollback (ok result, db) = (ok result, db)
catching none (err e, db) = (err e, db)
catching (some e') (err e, db) = (err e', db)

-- The `finally`
pub released : {A : Type 0} → ℕ → Result A × Db → Result A × Server
released taken (r, db) = (r, record { taken = taken - 1; db = db })

-- `withTransaction`
pub with_client : {A : Type 0} → Outages → Exec A → Server → Result A × Server
with_client outages fn s = elim outages.connect [
  | some e ↦ (err e, s)
  | none ↦ released (suc s.taken) (catching outages.rollback (trying outages fn s.db))
]

-- What the caller may rely on: the client is back in the pool; what is committed is as before, or as the callback
-- left it when it returned; and where the call returns, it is the latter.
pub record IsAtomic {A : Type 0} (fn : Exec A) (s : Server) (outcome : Result A × Server)
    : Type 0 where
  pub returned : outcome.1.taken ≡ s.taken
  pub whole : (outcome.1.db ≡ s.db) ⊎ ((a : A) × (fn s.db ≡ (ok a, outcome.1.db)))
  pub committed : (a : A) → outcome.0 ≡ ok a → fn s.db ≡ (ok a, outcome.1.db)
