-- ===== src/Payout/Engine.antt =====
-- `processDuePayouts` and `settleNow` of src/payouts/payout.service.ts and `tick` of src/settlement-worker.ts: a sweep, then
-- the payouts that are due.
use Prim.Native.String.{String}
use payment_apis.Prelude.{suc, List, [], ◌∷◌, ℕ, Option, none, some}
use payment_apis.Errors.{Error, DbError}
use payment_apis.Db.{PayoutRow, Db, >>=-keeps}
use payment_apis.Books.{IsBooked}
use payment_apis.Payout.{
  process_one, process_all, claim_due, sweep, process_due_payouts, list_payouts, list_by_merchant,
  settle_now, tick,
}
use payment_apis.Payout.Sweep.{sweep-IsBooked}
use payment_apis.Payout.Outcome.{process_one-IsBooked}

module _ (db_message : DbError → String) (others : ℕ → Db → Db) (outages : ℕ → Option Error)
    (honest : (k : ℕ) (s : Db) → IsBooked s → IsBooked (others k s)) where
  process_all-IsBooked :
      (n : ℕ) (due : List PayoutRow) (db : Db)
      → IsBooked db
      → IsBooked (process_all db_message others outages n due db).1
  unfolding process_all
  process_all-IsBooked n [] db b = b
  process_all-IsBooked n (payout ∷ due) db b =
      >>=-keeps IsBooked (process_one db_message (outages n) payout) _ (others n db)
        (process_one-IsBooked db_message (outages n) payout (others n db) (honest n db b))
        (λ r s p. process_all-IsBooked (suc n) due s p)

  -- Processing all payouts that are due keeps the books, whatever the bank and the outages do, if the
  -- other sessions do between the payouts.
  pub process_due_payouts-IsBooked :
      (limit : ℕ) (merchant_id : Option ℕ) (db : Db)
      → IsBooked db
      → IsBooked (process_due_payouts db_message others outages limit merchant_id db).1
  unfolding process_due_payouts claim_due
  process_due_payouts-IsBooked limit merchant_id db b =
      >>=-keeps IsBooked (process_all db_message others outages 0 _) _ _
        (process_all-IsBooked 0 _ _ record { distinct = b.distinct; reconciled = b.reconciled })
        (λ r s p. p)

module _ (db_message : DbError → String) (others : ℕ → Db → Db) (outages : ℕ → Option Error)
    (honest : (k : ℕ) (s : Db) → IsBooked s → IsBooked (others k s)) (min_amount : ℕ)
    (db : Db) where
  -- A tick of the settlement worker keeps the books, whatever the bank and the outages do and however
  -- the tick ends, if the other sessions do between its transactions.
  pub tick-IsBooked : IsBooked db → IsBooked (tick db_message others outages min_amount db).1
  unfolding tick
  tick-IsBooked b =
      >>=-keeps IsBooked (sweep others min_amount none) _ db
        (sweep-IsBooked others min_amount none db honest b)
        (λ created s p. process_due_payouts-IsBooked db_message others outages honest 50 none s p)

  -- A merchant's manual settlement keeps the books, whatever the bank and the outages do and
  -- however it ends, if the other sessions do between its transactions.
  pub settle_now-IsBooked :
      (merchant_id : ℕ)
      → IsBooked db
      → IsBooked (settle_now db_message others outages min_amount merchant_id db).1
  unfolding settle_now list_payouts list_by_merchant
  settle_now-IsBooked merchant_id b =
      >>=-keeps IsBooked (sweep others min_amount (some merchant_id)) _ db
        (sweep-IsBooked others min_amount (some merchant_id) db honest b)
        (λ created s p.
          >>=-keeps IsBooked (process_due_payouts db_message others outages 100 (some merchant_id))
            _ s
            (process_due_payouts-IsBooked db_message others outages honest 100 (some merchant_id) s
              p)
            (λ processed t q. q))
