-- ===== src/Rabbit/Broker.antt =====
-- The broker's queues as src/webhooks/rabbit/topology.ts declares them, beside the database. A message
-- for an exchange goes to the queue that is bound to it under the one routing key.
use Prim.Native.String.{String}
use payment_apis.Prelude.{ℕ, Option, List}
use payment_apis.Db.{Db, EventData, Void, Result, ok, err, Exec}

pub record Message : Type 0 where
  pub outbox_id : ℕ
  pub endpoint_id : ℕ
  pub event_type : String
  pub payload : EventData
  pub attempts : Option ℕ  -- the header `x-attempts`

-- `webhook.deliver`, `webhook.retry` with each message's expiration, and `webhook.dead`
pub record Broker : Type 0 where
  pub deliver : List Message
  pub retry : List (Message × ℕ)
  pub dead : List Message

pub record World : Type 0 where
  pub db : Db
  pub broker : Broker

-- A call that may use both.
abbrev pub Act : Type 0 → Type 0
Act A = World → Result A × World

abbrev with_db : {A : Type 0} → World → Result A × Db → Result A × World
with_db w (r, db) = (r, record w { db = db })

abbrev pub on_db : {A : Type 0} → Exec A → Act A
on_db m w = with_db w (m w.db)

abbrev pub pure : {A : Type 0} → A → Act A
pure a w = (ok a, w)

abbrev pub change : (World → World) → Act Void
change f w = (ok tt, f w)

abbrev proceed : {A B : Type 0} → (A → Act B) → Result A × World → Result B × World
proceed f (ok a, w) = f a w
proceed f (err e, w) = (err e, w)

infixl 5 ◌>>=◌ ◌>>◌
abbrev pub ◌>>=◌ : {A B : Type 0} → Act A → (A → Act B) → Act B
◌>>=◌ m f w = proceed f (m w)

abbrev pub ◌>>◌ : {B : Type 0} → Act Void → Act B → Act B
m >> k = m >>= λ _. k

-- A publication to one of the exchanges, as what it does to the queue.
abbrev pub on_deliver : (List Message → List Message) → World → World
on_deliver f w = record w { broker = record w.broker { deliver = f w.broker.deliver } }

abbrev pub on_retry : (List (Message × ℕ) → List (Message × ℕ)) → World → World
on_retry f w = record w { broker = record w.broker { retry = f w.broker.retry } }

abbrev pub on_dead : (List Message → List Message) → World → World
on_dead f w = record w { broker = record w.broker { dead = f w.broker.dead } }
