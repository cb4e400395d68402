-- ===== src/Worker/Relay.antt =====
-- The process of src/rabbit-worker.ts, from its start to its end.
use payment_apis.Prelude.{ℕ, ◌<◌, ◌≡◌, subst, arith, Bool, false, some}
use payment_apis.Rabbit.{World, Confirms, relay_tick}
use payment_apis.Rabbit.Tracking.{IsTracked}
use payment_apis.Rabbit.Safety.{relay_alone-IsTracked}
use payment_apis.Worker.{rabbit_main}
use payment_apis.Worker.Stops.{main_loop-Ended, turns-keeps}

-- Where a signal has come by the k-th test, the relay's process ends, with any fuel above k; then each event
-- marked published has a message that waits, and no message waits for more than its fifth attempt, if so at the
-- start, if nothing interrupts the ticks and if what happens between them keeps both.
pub relay_ends :
    (outcome : ℕ → Confirms) (running : ℕ → Bool) (asleep : ℕ → World → World) (k fuel : ℕ)
    (w : World)
    → ((n : ℕ) (v : World) → IsTracked v → IsTracked (asleep n v))
    → running k ≡ false
    → k < fuel
    → IsTracked w
    → (after : World) × (rabbit_main (λ n v. v) outcome running asleep fuel w ≡ some after)
      × IsTracked after
unfolding rabbit_main
relay_ends outcome running asleep k fuel w quiet stop enough t =
    let tick = λ (n : ℕ). relay_tick (λ v. v) (outcome n) in
    let e =
      main_loop-Ended running tick asleep k fuel 0 w enough
        (subst (λ m. running m ≡ false) (omega arith) stop) in
    (
      _,
      e.final,
      turns-keeps running tick asleep IsTracked
          (λ n v p. quiet n _ (relay_alone-IsTracked (outcome n) v p)) e.count 0 w t,
    )
