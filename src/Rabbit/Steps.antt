-- ===== src/Rabbit/Steps.antt =====
-- What may happen to the outbox and the broker, one step at a time: the relay of src/rabbit-worker.ts,
-- its consumer while the database answers, the broker's expiry, and the transactions that emit events.
use Prim.Native.String.{String}
use payment_apis.Prelude.{ℕ, ◌≤◌, ◌≡◌, none, List, [], ◌∷◌, ◌++◌}
use payment_apis.Db.{EventData}
use payment_apis.Webhook.{emit}
use payment_apis.Delivery.{Answer, Post, Runtime}
use payment_apis.Rabbit.{Message, World, on_db, Confirms, relay_tick, consume_next}

-- The retry queue dead-letters an expired message back to the main exchange.
abbrev pub expired : Message → List (Message × ℕ) → World → World
expired message rest w = record w {
  broker = record w.broker { deliver = w.broker.deliver ++ (message ∷ []); retry = rest };
}

-- A relay tick during which nothing else runs.
abbrev pub relay_alone : Confirms → World → World
relay_alone outcome w = (relay_tick (λ w. w) outcome w).1

module _ (runtime : Runtime) where
  pub data Step (w : World) : World → Type 0 where
    relay : (outcome : Confirms) → Step w (relay_alone outcome w)
    deliver : (fetch : Post → Answer) → Step w (consume_next runtime none fetch w).1
    expire :
        (front back : List (Message × ℕ)) (message : Message) (expiration : ℕ)
        → w.broker.retry ≡ front ++ ((message, expiration) ∷ back)
        → Step w (expired message (front ++ back) w)
    commit :
        (merchant_id : ℕ) (event_type : String) (payload : EventData)
        → Step w (on_db (emit merchant_id event_type payload) w).1
    pass : (now : ℕ) → w.db.now ≤ now → Step w (record w { db = record w.db { now = now } })

  pub data Reach (w : World) : World → Type 0 where
    here : Reach w w
    next : {u v : World} → Reach w u → Step u v → Reach w v
