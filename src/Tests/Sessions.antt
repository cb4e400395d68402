-- ===== src/Tests/Sessions.antt =====
-- A merchant registers, logs in and reads the account, with stand-ins for bcrypt and jsonwebtoken.
use Prim.Native.String.{String, ◌++◌}
use text.Mathlib.Text.{◌==◌ as ◌=ₛ◌}
use payment_apis.Prelude.{ℕ, ◌≡◌, refl, subst, false, none, some, ◌∷◌, ltb, arith, if◌then◌else◌}
use payment_apis.Errors.{app as app_error, invalid_credentials}
use payment_apis.Db.{Db, MerchantRow, ok, err}
use payment_apis.Merchant.{insert_row, insert}
use payment_apis.Auth.{
  Libraries, Verified, decoded, expired, malformed, RegisterDto, LoginDto, PublicMerchant, register,
  login, sign_token,
}
use payment_apis.Auth.Session.{new_merchant, claims, IsToken, login-refuses}
use payment_apis.Transfer.Outcome.{quiet}
use payment_apis.Idempotency.{Response}
use payment_apis.Http.{Body, merchant_body, auth_body}
use payment_apis.Http.Routes.{
  Environment, success, failure, auth, post_register, post_login, get_me, wallets, get_wallets,
  serve,
}
use payment_apis.Http.Session.{at, reply, session_round_trip}
use payment_apis.Http.App.{api, app}
use payment_apis.Http.Access.{app-refuses}
use payment_apis.Sample.{first_merchant, sample}

abbrev verify : String → String → ℕ → Verified
verify token secret clock =
    if ltb clock 4_600
    then (if token =ₛ "token"
        then decoded (record { sub = 100; email = "ada@example.com" })
        else malformed)
    else expired

abbrev libraries : Libraries
libraries = record {
  to_lower_case = λ s. if s =ₛ "Ada@Example.com" then "ada@example.com" else s;
  trim = λ s. s;
  hash = λ plain rounds salt. salt ++ plain;
  compare = λ plain hash. hash =ₛ ("salt" ++ plain);
  sign = λ payload secret expires_in clock. "token";
  verify = verify;
  secret = "secret";
}

abbrev dto : RegisterDto
dto = record { email = "Ada@Example.com"; password = "password" }

abbrev again : LoginDto
again = record { email = "ada@example.com"; password = "password" }

abbrev ada : PublicMerchant
ada = record { id = 100; email = "ada@example.com"; created_at = 1_000 }

abbrev after : Db
after = record sample {
  drawn = 1;
  merchants = new_merchant libraries "salt" dto sample ∷ sample.merchants;
}

registers : register libraries "salt" dto sample ≡ (ok ada, after)
unfolding register insert insert_row
registers = refl

ada-IsToken : IsToken libraries (claims ada) 1_000
unfolding sign_token
ada-IsToken = record { valid = λ later from until. ground arith; trimmed = refl; nonempty = refl }

-- A wrong password for a merchant who is there.
abbrev guess : LoginDto
guess = record { email = "one@example.com"; password = "password" }

login-refuses_example :
    login libraries 1_000 guess sample ≡ (err (app_error invalid_credentials), sample)
login-refuses_example = login-refuses libraries 1_000 guess sample (λ row found.
    let same : first_merchant ≡ row = ground arith in
    subst (λ (r : MerchantRow). libraries.compare guess.password r.password_hash ≡ false) same refl)

abbrev stringify : Body → String
stringify body = "body"

abbrev env : Environment
env = record {
  server = record { stringify = stringify; sha256 = λ s. s; request_id = "r1" };
  libraries = libraries;
  schemas = record {
    register = λ s. success dto;
    login = λ s. success again;
    create_wallet = λ s. failure s;
    create_transfer = λ s. failure s;
    create_payment_intent = λ s. failure s;
    register_payout_account = λ s. failure s;
    register_endpoint = λ s. failure s;
  };
  clock = 9_000;
  salt = "salt";
  random_hex = "00";
  transfer_text = λ d. "{}";
  before_select = λ s. s;
  during_transfer = quiet;
  db_message = λ e. "error";
  during_payouts = λ n s. s;
  outages = λ n. none;
  min_amount = 100;
}

-- The token has expired.
app-refuses_example :
    (response : Response) × (app env none (api (some "Bearer token") (wallets get_wallets)) sample
      ≡ (ok response, sample))
    × (response.status ≡ 401)
app-refuses_example =
    app-refuses env none (api (some "Bearer token") (wallets get_wallets)) sample refl
      (λ token payload sent h. cc)

session_round_trip_example :
    let token = sign_token libraries 1_000 (claims ada) in
    (serve env none (auth (post_register "{}")) sample
      ≡ (ok (reply env 201 (merchant_body ada)), after))
    × (serve (at 1_000 env) none (auth (post_login "{}")) after
        ≡ (ok (reply env 200 (auth_body (record { token = token; merchant = ada }))), after))
    × (serve (at 2_000 env) (some ("Bearer " ++ token)) (auth get_me) after
        ≡ (ok (reply env 200 (merchant_body ada)), after))
session_round_trip_example =
    session_round_trip env none "{}" "{}" dto again sample after after ada 1_000 2_000 refl refl
      registers refl refl refl ada-IsToken (omega arith) (omega arith) refl refl
