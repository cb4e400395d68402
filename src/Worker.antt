-- ===== src/Worker.antt =====
-- The processes of src/webhook-worker.ts, src/settlement-worker.ts and src/rabbit-worker.ts: a loop that ticks
-- and sleeps until a signal. `running n` is what the loop's n-th test finds, and `asleep n` what
-- happens elsewhere until the next one. The pool and the connections that they close are left out.
pub mod Stops
pub mod Books
pub mod Relay
use Prim.Native.String.{String}
use payment_apis.Prelude.{ℕ, zero, suc, Bool, true, false, Option, none, some}
use payment_apis.Errors.{Error, DbError}
use payment_apis.Db.{Db, Void, Result}
use payment_apis.Delivery as Delivery
use payment_apis.Delivery.{Answer, Post, Runtime}
use payment_apis.Payout as Payout
use payment_apis.Rabbit.{World, Confirms, relay_tick}

-- `try { await tick(); } catch (err) { … } await sleep(…);`
abbrev pub turn : {S A : Type 0} → (ℕ → S → Result A × S) → (ℕ → S → S) → ℕ → S → S
turn tick asleep n s = asleep n (tick n s).1

-- `while (running) { … }`, on fuel for the tests.
unfoldable pub main_loop :
    {S A : Type 0} → (ℕ → Bool) → (ℕ → S → Result A × S) → (ℕ → S → S) → ℕ → ℕ → S → Option S
main_loop running tick asleep zero n s = none
main_loop running tick asleep (suc fuel) n s = elim (running n) [
  | true ↦ main_loop running tick asleep fuel (suc n) (turn tick asleep n s)
  | false ↦ some s
]

-- `main` of src/webhook-worker.ts
pub delivery_main :
    Runtime → (ℕ → ℕ → Post → Answer) → (ℕ → Bool) → (ℕ → Db → Db) → ℕ → Db → Option Db
delivery_main runtime fetch running asleep fuel =
    main_loop running (λ n. Delivery.tick runtime (fetch n)) asleep fuel 0

-- `main` of src/settlement-worker.ts
pub settlement_main :
    (DbError → String)
    → (ℕ → ℕ → Db → Db)
    → (ℕ → ℕ → Option Error)
    → ℕ
    → (ℕ → Bool)
    → (ℕ → Db → Db)
    → ℕ
    → Db
    → Option Db
settlement_main db_message others outages min_amount running asleep fuel =
    main_loop running (λ n. Payout.tick db_message (others n) (outages n) min_amount) asleep fuel 0

-- The relay's loop in `main` of src/rabbit-worker.ts
pub rabbit_main :
    (ℕ → World → World)
    → (ℕ → Confirms)
    → (ℕ → Bool)
    → (ℕ → World → World)
    → ℕ
    → World
    → Option World
rabbit_main during outcome running asleep fuel =
    main_loop running (λ n. relay_tick (during n) (outcome n)) asleep fuel 0
