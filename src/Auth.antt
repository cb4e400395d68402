-- ===== src/Auth.antt =====
-- src/auth/: registration and login (auth.service.ts, password.ts, jwt.ts), and the bearer check of
-- src/middleware/authenticate.ts. bcrypt, jsonwebtoken and two methods of JavaScript's strings are
-- parameters, and so are the salt that bcrypt draws and the clock, in seconds, that jsonwebtoken reads.
pub mod Session
pub mod Refusal
use Prim.Native.Nat.{ℕ}
use Prim.Native.String.{String, slice, len}
use text.Mathlib.Text.{◌==◌ as ◌=ₛ◌, starts_with}
use payment_apis.Prelude.{Bool, not, Option, none, some, if◌then◌else◌}
use payment_apis.Errors.{
  AppError, app, unauthorized, invalid_credentials, expired_token, invalid_token,
}
use payment_apis.Db.{
  MerchantRow, Result, ok, err, Exec, pure, or_throw, throw_if, bind_result, ◌>>=◌, ◌>>◌,
}
use payment_apis.Merchant.{insert, find_by_email, find_by_id}

-- `AuthTokenPayload`
pub record AuthTokenPayload : Type 0 where
  pub sub : ℕ
  pub email : String

-- What `jwt.verify` does: it returns the claims, or throws, a TokenExpiredError or another error.
pub data Verified : Type 0 where
  decoded : AuthTokenPayload → Verified
  expired malformed : Verified

-- The libraries, and JWT_SECRET. A token is signed to expire after a text such as "1h".
pub record Libraries : Type 0 where
  pub to_lower_case : String → String
  pub trim : String → String
  pub hash : (plain : String) (rounds : ℕ) (salt : String) → String
  pub compare : (plain hash : String) → Bool
  pub sign : AuthTokenPayload → (secret expires_in : String) (clock : ℕ) → String
  pub verify : (token secret : String) (clock : ℕ) → Verified
  pub secret : String

-- SALT_ROUNDS and EXPIRES_IN
abbrev pub salt_rounds : ℕ
salt_rounds = 10

abbrev pub expires_in : String
expires_in = "1h"

-- src/auth/auth.dto.ts
pub record RegisterDto : Type 0 where
  pub email : String
  pub password : String

pub record LoginDto : Type 0 where
  pub email : String
  pub password : String

pub record PublicMerchant : Type 0 where
  pub id : ℕ
  pub email : String
  pub created_at : ℕ

pub record AuthResponse : Type 0 where
  pub token : String
  pub merchant : PublicMerchant

abbrev pub to_public_merchant : MerchantRow → PublicMerchant
to_public_merchant row = record { id = row.id; email = row.email; created_at = row.created_at }

-- `authService.getById`
unfoldable pub get_by_id : ℕ → Exec PublicMerchant
get_by_id id = do
  row ← find_by_id id
  merchant ← or_throw row (unauthorized "Account no longer exists")
  pure (to_public_merchant merchant)

-- The claims of a token that was decoded, and the errors that stand for a throw.
unfoldable pub claims_of : Verified → Result AuthTokenPayload
claims_of (decoded payload) = ok payload
claims_of expired = err (app expired_token)
claims_of malformed = err (app invalid_token)

module _ (libraries : Libraries) where
  unfoldable pub hash_password : String → String → String
  hash_password salt plain = libraries.hash plain salt_rounds salt

  pub verify_password : String → String → Bool
  verify_password plain hash = libraries.compare plain hash

  unfoldable pub sign_token : ℕ → AuthTokenPayload → String
  sign_token clock payload = libraries.sign payload libraries.secret expires_in clock

  unfoldable pub verify_token : ℕ → String → Result AuthTokenPayload
  verify_token clock token = claims_of (libraries.verify token libraries.secret clock)

  -- `authService.register`
  unfoldable pub register : String → RegisterDto → Exec PublicMerchant
  register salt dto = do
    let normalized_email = libraries.to_lower_case dto.email
    created ← insert normalized_email (hash_password salt dto.password)
    pure (to_public_merchant created)

  -- What `login` does with the merchant that it found.
  unfoldable pub login_as : ℕ → String → MerchantRow → Exec AuthResponse
  login_as clock password merchant = do
    throw_if (not (verify_password password merchant.password_hash)) (app invalid_credentials)
    let payload : AuthTokenPayload = record { sub = merchant.id; email = merchant.email }
    pure (record { token = sign_token clock payload; merchant = to_public_merchant merchant })

  -- `authService.login`
  unfoldable pub login : ℕ → LoginDto → Exec AuthResponse
  login clock dto = do
    let normalized_email = libraries.to_lower_case dto.email
    row ← find_by_email normalized_email
    merchant ← or_throw row invalid_credentials
    login_as clock dto.password merchant

  -- The token of "Bearer <token>".
  unfoldable pub token_after : String → Result String
  token_after header =
      let token = libraries.trim (slice header (len "Bearer ") (len header)) in
      if token =ₛ "" then err (app (unauthorized "Missing bearer token")) else ok token

  unfoldable pub bearer_token : Option String → Result String
  bearer_token none = err (app (unauthorized "Missing or malformed Authorization header"))
  bearer_token (some header) =
      if not (starts_with header "Bearer ")
      then err (app (unauthorized "Missing or malformed Authorization header"))
      else token_after header

  -- `authenticate`, up to the identity that it attaches to the request.
  unfoldable pub authenticate : ℕ → Option String → Result AuthTokenPayload
  authenticate clock header = bind_result (bearer_token header) (verify_token clock)
