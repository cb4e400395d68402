-- ===== src/Worker/Books.antt =====
-- The process of src/settlement-worker.ts, from its start to its end.
use Prim.Native.String.{String}
use payment_apis.Prelude.{ℕ, ◌<◌, ◌≡◌, subst, arith, Bool, false, Option, some}
use payment_apis.Errors.{Error, DbError}
use payment_apis.Db.{Db}
use payment_apis.Books.{IsBooked}
use payment_apis.Payout as Payout
use payment_apis.Payout.Engine.{tick-IsBooked}
use payment_apis.Worker.{settlement_main}
use payment_apis.Worker.Stops.{main_loop-Ended, turns-keeps}

-- Where a signal has come by the k-th test, the settlement worker ends, however its ticks end, with any fuel
-- above k; then the books agree, if they did at the start and the other sessions keep them in agreement between the
-- transactions of a tick and between the ticks, whatever the bank and the outages do.
pub settlement_ends :
    (db_message : DbError → String) (others : ℕ → ℕ → Db → Db) (outages : ℕ → ℕ → Option Error)
    (min_amount : ℕ) (running : ℕ → Bool) (asleep : ℕ → Db → Db) (k fuel : ℕ) (db : Db)
    → ((n j : ℕ) (s : Db) → IsBooked s → IsBooked (others n j s))
    → ((n : ℕ) (s : Db) → IsBooked s → IsBooked (asleep n s))
    → running k ≡ false
    → k < fuel
    → IsBooked db
    → (after : Db) × (settlement_main db_message others outages min_amount running asleep fuel db
        ≡ some after)
      × IsBooked after
unfolding settlement_main
settlement_ends db_message others outages min_amount running asleep k fuel db honest quiet stop
      enough b =
    let tick = λ (n : ℕ). Payout.tick db_message (others n) (outages n) min_amount in
    let e =
      main_loop-Ended running tick asleep k fuel 0 db enough
        (subst (λ m. running m ≡ false) (omega arith) stop) in
    (
      _,
      e.final,
      turns-keeps running tick asleep IsBooked
          (λ n s p.
            quiet n _ (tick-IsBooked db_message (others n) (outages n) (honest n) min_amount s p))
          e.count 0 db b,
    )
