-- ===== src/Tests/Processes.antt =====
-- The settlement worker from start to end, a transaction whose COMMIT is lost, and the owners of wallets.
use payment_apis.Prelude.{ℕ, ◌≡◌, refl, true, none, some, ltb, arith}
use payment_apis.Errors.{plain}
use payment_apis.Db.{Db, Exec, pure}
use payment_apis.Db.Client.{Outages, Server, with_client, IsAtomic}
use payment_apis.Db.Client.Atomic.{with_client-IsAtomic}
use payment_apis.Books.{IsBooked}
use payment_apis.Worker.{settlement_main}
use payment_apis.Worker.Books.{settlement_ends}
use payment_apis.Sample.{sample, sample-IsBooked}

-- The signal comes during the second tick.
settlement_ends_example :
    (after : Db) × (settlement_main
        (λ e. "error")
        (λ n j s. s)
        (λ n j. none)
        100
        (λ n. ltb n 2)
        (λ n s. s)
        5
        sample
      ≡ some after)
    × IsBooked after
settlement_ends_example =
    settlement_ends (λ e. "error") (λ n j s. s) (λ n j. none) 100 (λ n. ltb n 2) (λ n s. s) 2 5
      sample (λ n j s b. b) (λ n s b. b) refl (omega arith) sample-IsBooked

abbrev lost_commit : Outages
lost_commit = record {
  connect = none;
  begin = none;
  commit = some (plain "Connection terminated", true);
  rollback = some (plain "Client has encountered a connection error");
}

abbrev server : Server
server = record { taken = 3; db = sample }

abbrev fn : Exec ℕ
fn = pure 7

with_client-IsAtomic_example : IsAtomic fn server (with_client lost_commit fn server)
with_client-IsAtomic_example = with_client-IsAtomic lost_commit fn server
