-- ===== src/Tests/Requests.antt =====
-- POST /transfers and the idempotency guard, with texts of a test's own for JSON and SHA-256.
use Prim.Native.String.{String}
use payment_apis.Prelude.{◌≡◌, refl, none, some, [], ◌∷◌, first, any, false, arith}
use payment_apis.Prelude.Double.{to_string}
use payment_apis.Prelude.Int.{◌+ℤ◌}
use payment_apis.Errors.{app, idempotency_key_reuse}
use payment_apis.Db.{Db, ok, err, pure, with_transaction}
use payment_apis.Wallet.{find_by_id, apply_delta_if_version, add_delta_bump}
use payment_apis.Wallet.Success.{debit_row, credit_row}
use payment_apis.Wallet.Updates.{with_wallets}
use payment_apis.Ledger.{create_transaction, add_entry}
use payment_apis.Transfer.{
  CreateTransferDto, validate, record_ledger, move_funds, transfer_rows, attempt_transfer,
  retry_loop, transfer,
}
use payment_apis.Transfer.Writes.{recorded}
use payment_apis.Transfer.Outcome.{quiet}
use payment_apis.Idempotency.{
  Request, Response, is_key, insert_key, claim, persist, complete, first_time, proceed,
  hash_request, with_key, with_header, idempotency,
}
use payment_apis.Idempotency.Replay.{
  claim_row, claimed, saved_in, replays_response, frees_key, refuses_reuse, runs_unclaimed,
}
use payment_apis.Http.{Body, Server, respond, create, post_transfer}
use payment_apis.Http.Retry.{post_transfer_once}
use payment_apis.Sample.{first_wallet, second_wallet, sample}

abbrev sha256 : String → String
sha256 s = s

abbrev req : Request
req = record {
  merchant_id = 1;
  method = "POST";
  original_url = "/transfers";
  body = "{}";
  idempotency_key = some "k1";
}

abbrev done : Response
done = record { status = 201; body = "done" }

abbrev broken : Response
broken = record { status = 500; body = "broken" }

-- The state in which the first request runs.
abbrev running : Db
running = claimed sha256 req "k1" refl refl sample

replays_response_example :
    let (r, after) = idempotency sha256 (λ s. s) req (pure done) sample in
    (r ≡ ok done) × (idempotency sha256 (λ s. s) req (pure broken) after ≡ (ok done, after))
replays_response_example =
    replays_response sha256 req "k1" refl refl (λ s. s) (λ s. s) (pure done) (pure broken) sample
      running done refl refl refl refl (omega arith) (λ s. refl)

frees_key_example :
    let (r, after) = idempotency sha256 (λ s. s) req (pure broken) sample in
    (r ≡ ok broken) × (any (is_key 1 "k1") after.idempotency_keys ≡ false)
frees_key_example =
    frees_key sha256 req "k1" refl refl (λ s. s) (pure broken) sample running broken refl refl refl
      (omega arith)

-- The same key with another body.
abbrev other_req : Request
other_req = record req { body = "{\"amount\":1}" }

refuses_reuse_example :
    idempotency sha256 (λ s. s) other_req (pure done) running
    ≡ (err (app idempotency_key_reuse), running)
unfolding hash_request
refuses_reuse_example =
    refuses_reuse sha256 other_req "k1" refl refl (λ s. s) (pure done) running
      (claim_row sha256 req "k1" refl refl sample) refl refl refl

-- The first request fails, and frees the key, just before the second one looks for its row.
abbrev freed : Db → Db
freed s = record s { idempotency_keys = [] }

runs_unclaimed_example :
    let (r, after) = idempotency sha256 freed req (pure done) running in
    (r ≡ ok done) × (first (is_key 1 "k1") after.idempotency_keys ≡ none)
runs_unclaimed_example =
    runs_unclaimed sha256 req "k1" refl refl freed (pure done) running (freed running) done refl
      refl refl refl (omega arith)

abbrev stringify : Body → String
stringify body = "body"

abbrev server : Server
server = record { stringify = stringify; sha256 = sha256; request_id = "r1" }

abbrev dto : CreateTransferDto
dto = record { from_wallet_id = 11; to_wallet_id = 12; amount = 100 }

abbrev created : Response
created = record { status = 201; body = "body" }

-- The state after the first POST: the transfer's rows, and the saved response.
abbrev posted : Db
posted = saved_in sha256 req "k1" refl refl created (
    with_wallets (debit_row 1_000 100 first_wallet ∷ credit_row 1_000 100 second_wallet ∷ [])
      (recorded first_wallet second_wallet 100 running))

posts : post_transfer server (λ s. s) quiet req dto sample ≡ (ok created, posted)
unfolding post_transfer respond idempotency with_header with_key claim insert_key proceed first_time
    persist complete hash_request create transfer retry_loop attempt_transfer find_by_id
    transfer_rows validate with_transaction move_funds record_ledger to_string create_transaction
    add_entry apply_delta_if_version add_delta_bump ◌+ℤ◌
posts = refl

post_transfer_once_example :
    post_transfer server (λ s. s) quiet req dto posted ≡ (ok created, posted)
post_transfer_once_example =
    post_transfer_once server (λ s. s) (λ s. s) quiet quiet req "k1" dto dto sample posted created
      refl refl refl refl (λ n s. refl) (λ n s. refl) (λ s. refl) posts (omega arith)
