-- ===== src/Db/Client/Atomic.antt =====
-- What `withTransaction` of src/db.ts leaves, whichever of its calls fail.
use payment_apis.Prelude.{
  suc, ◌≡◌, refl, ◌⊎◌, inl, inr, Option, none, some, Bool, true, false, arith,
}
use payment_apis.Errors.{Error}
use payment_apis.Db.Rows.{Db}
use payment_apis.Db.Statement.{Result, ok, err, Exec, with_transaction, settle}
use payment_apis.Db.Client.{
  Outages, Server, committing, running, trying, catching, released, with_client, IsAtomic,
}

-- The same of a result and a database.
record Whole {A : Type 0} (fn : Exec A) (db : Db) (outcome : Result A × Db) : Type 0 where
  whole : (outcome.1 ≡ db) ⊎ ((a : A) × (fn db ≡ (ok a, outcome.1)))
  committed : (a : A) → outcome.0 ≡ ok a → fn db ≡ (ok a, outcome.1)

committing-Whole :
    {A : Type 0} (fn : Exec A) (commit : Option (Error × Bool)) (result : A) (before own : Db)
    → fn before ≡ (ok result, own)
    → Whole fn before (committing commit result before own)
unfolding committing
committing-Whole fn none result before own h = record {
  whole = inr (result, h);
  committed = λ a e. cc;
}
committing-Whole fn (some (e, true)) result before own h = record {
  whole = inr (result, h);
  committed = λ a k. absurd (ground arith);
}
committing-Whole fn (some (e, false)) result before own h = record {
  whole = inl refl;
  committed = λ a k. absurd (ground arith);
}

running-Whole :
    {A : Type 0} (fn : Exec A) (commit : Option (Error × Bool)) (db : Db) (r : Result A × Db)
    → fn db ≡ r
    → Whole fn db (running commit db r)
unfolding running
running-Whole fn commit db (ok result, own) h = committing-Whole fn commit result db own h
running-Whole fn commit db (err e, own) h = record {
  whole = inl refl;
  committed = λ a k. absurd (ground arith);
}

trying-Whole :
    {A : Type 0} (outages : Outages) (fn : Exec A) (db : Db) → Whole fn db (trying outages fn db)
unfolding trying
trying-Whole outages fn db =
    elim outages.begin
      as (λ b.
        Whole fn db (elim b [ some e ↦ (err e, db) | none ↦ running outages.commit db (fn db) ])) [
          | some e ↦ record { whole = inl refl; committed = λ a k. absurd (ground arith) }
          | none ↦ running-Whole fn outages.commit db (fn db) refl
        ]

catching-Whole :
    {A : Type 0} (fn : Exec A) (rollback : Option Error) (db : Db) (r : Result A × Db)
    → Whole fn db r
    → Whole fn db (catching rollback r)
unfolding catching
catching-Whole fn rollback db (ok result, after) w = w
catching-Whole fn none db (err e, after) w = w
catching-Whole fn (some e') db (err e, after) w = record {
  whole = w.whole;
  committed = λ a k. absurd (ground arith);
}

released-IsAtomic :
    {A : Type 0} (fn : Exec A) (s : Server) (r : Result A × Db)
    → Whole fn s.db r
    → IsAtomic fn s (released (suc s.taken) r)
unfolding released
released-IsAtomic fn s r w = record {
  returned = omega arith;
  whole = w.whole;
  committed = w.committed;
}

-- Whichever of the calls of the client fail, one or several: the client is back in the pool; what is committed is as
-- before, or as the callback left it when it returned; and where the call returns, it is the latter,
-- with the callback's result.
pub with_client-IsAtomic :
    {A : Type 0} (outages : Outages) (fn : Exec A) (s : Server)
    → IsAtomic fn s (with_client outages fn s)
unfolding with_client
with_client-IsAtomic {A} outages fn s = go outages.connect
  where
    go :
        (o : Option Error)
        → IsAtomic fn s (elim o [
          | some e ↦ (err e, s)
          | none ↦ released (suc s.taken) (catching outages.rollback (trying outages fn s.db))
        ])
    go (some e) = record {
      returned = refl;
      whole = inl refl;
      committed = λ a k. absurd (ground arith);
    }
    go none =
        released-IsAtomic fn s _
          (catching-Whole fn outages.rollback s.db _ (trying-Whole outages fn s.db))

-- Where no call fails, it is the transaction of the model.
pub with_client-eq-with_transaction :
    {A : Type 0} (outages : Outages) (fn : Exec A) (s : Server)
    → outages.connect ≡ none
    → outages.begin ≡ none
    → outages.commit ≡ none
    → outages.rollback ≡ none
    → with_client outages fn s
      ≡ ((with_transaction fn s.db).0, record s { db = (with_transaction fn s.db).1 })
unfolding with_client released with_transaction catching trying running committing
with_client-eq-with_transaction {A} outages fn s c b k h = rw (c, b, k, h) (go (fn s.db))
  where
    go :
        (r : Result A × Db)
        → released (suc s.taken) (catching none (running none s.db r))
          ≡ ((settle s.db r).0, record s { db = (settle s.db r).1 })
    go (ok result, own) = ground arith
    go (err e, own) = ground arith
