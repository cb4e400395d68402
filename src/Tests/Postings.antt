-- ===== src/Tests/Postings.antt =====
-- POST /transfers from the request to the accounts, with stand-ins for zod and jsonwebtoken, and the wallets that
-- the system opens.
use Prim.Native.String.{String}
use text.Mathlib.Text.{◌==◌ as ◌=ₛ◌}
use payment_apis.Prelude.{
  ℕ, ◌≡◌, refl, true, false, Option, none, some, [], All, Distinct, arith, if◌then◌else◌,
}
use payment_apis.Prelude.Int.{pos}
use payment_apis.Errors.{app, concurrency_conflict}
use payment_apis.Db.{Db, ok}
use payment_apis.Wallet.{HasRoom}
use payment_apis.Wallet.Deltas.{ids}
use payment_apis.Auth.{
  AuthTokenPayload, Libraries, decoded, claims_of, authenticate, bearer_token, token_after,
  verify_token,
}
use payment_apis.Transfer.{CreateTransferDto}
use payment_apis.Transfer.Outcome.{quiet}
use payment_apis.Transfer.Accounts.{accounts, pay}
use payment_apis.Idempotency.{Response}
use payment_apis.Http.{error_handler}
use payment_apis.Http.Routes.{Environment, success, failure, transfers, post_transfers, serve}
use payment_apis.Http.Schemas.{Zod, declared, IsRespelled}
use payment_apis.Http.Posting.{calm, IsPromised, post_transfer_pays, post_transfer_self}
use payment_apis.Sample.{sample, first_wallet}

abbrev who : AuthTokenPayload
who = record { sub = 1; email = "one@example.com" }

abbrev libraries : Libraries
libraries = record {
  to_lower_case = λ s. s;
  trim = λ s. s;
  hash = λ plain rounds salt. plain;
  compare = λ plain hash. false;
  sign = λ payload secret expires_in clock. "token";
  verify = λ token secret clock. decoded who;
  secret = "secret";
}

abbrev dto : CreateTransferDto
dto = record { from_wallet_id = 11; to_wallet_id = 12; amount = 100 }

abbrev pub env : Environment
env = record {
  server = record { stringify = λ body. "body"; sha256 = λ s. s; request_id = "r1" };
  libraries = libraries;
  schemas = record {
    register = λ s. failure s;
    login = λ s. failure s;
    create_wallet = λ s. failure s;
    create_transfer = λ s. success dto;
    create_payment_intent = λ s. failure s;
    register_payout_account = λ s. failure s;
    register_endpoint = λ s. failure s;
  };
  clock = 1;
  salt = "salt";
  random_hex = "00";
  transfer_text = λ d. "{}";
  before_select = λ s. s;
  during_transfer = quiet;
  db_message = λ e. "error";
  during_payouts = λ n s. s;
  outages = λ n. none;
  min_amount = 100;
}

known : authenticate libraries 1 (some "Bearer token") ≡ ok who
unfolding authenticate bearer_token token_after verify_token claims_of
known = refl

sample-Distinct : Distinct (ids sample.wallets)
sample-Distinct = ((λ e. absurd (omega arith), tt), (tt, tt))

sample_bounded : All HasRoom sample.wallets
sample_bounded = ((omega arith, omega arith), ((omega arith, omega arith), tt))

post_transfer_pays_example :
    (response : Response) × (after : Db) × (serve
        (calm env)
        (some "Bearer token")
        (transfers (post_transfers (some "k9") "{}"))
        sample
      ≡ (ok response, after))
    × IsPromised env.server (pay 1 dto (accounts sample)) (accounts sample) response after
post_transfer_pays_example =
    post_transfer_pays env (some "Bearer token") "k9" "{}" dto who sample refl known refl refl refl
      sample-Distinct sample_bounded (λ e. absurd (omega arith))

-- A body of two spellings of one UUID.
data Json : Type 0 where
  spelled : String → Json
  number : ℕ → Json
  body : Json

abbrev property : String → Json → Option Json
property name (spelled s) = none
property name (number n) = none
property name body =
    if name =ₛ "fromWalletId"
    then some (spelled "0000000b")
    else if name =ₛ "toWalletId"
    then some (spelled "0000000B")
    else some (number 100)

abbrev text_of : Json → Option String
text_of (spelled s) = some s
text_of (number n) = none
text_of body = none

abbrev zod : Zod
zod = record {
  Json = Json;
  json = λ s. body;
  property = property;
  string = text_of;
  integer = λ value. some (pos 100);
  uuid = λ s. some 11;
  is_email = λ s. true;
  is_url = λ s. true;
  length = λ s. 10;
  codes = λ s. [];
  field_errors = λ s. s;
}

respelled : IsRespelled zod (zod.json "{}") 11 100
respelled = record {
  from_value = spelled "0000000b";
  to_value = spelled "0000000B";
  number = number 100;
  from_text = "0000000b";
  to_text = "0000000B";
  has_from = refl;
  has_to = refl;
  has_amount = refl;
  from_string = refl;
  to_string = refl;
  from_uuid = refl;
  to_uuid = refl;
  apart = refl;
  integer = refl;
  above_zero = omega arith;
}

post_transfer_self_example :
    (response : Response) × (after : Db) × (serve
        (calm (record env { schemas = declared zod }))
        (some "Bearer token")
        (transfers (post_transfers (some "k9") "{}"))
        sample
      ≡ (ok response, after))
    × (response ≡ error_handler env.server (app concurrency_conflict))
    × (response.status ≡ 409)
    × (after.wallets ≡ sample.wallets)
    × (after.ledger_entries ≡ sample.ledger_entries)
post_transfer_self_example =
    post_transfer_self zod env (some "Bearer token") "k9" "{}" 11 100 first_wallet who sample refl
      known respelled refl refl sample-Distinct refl refl (omega arith) (omega arith, omega arith)
