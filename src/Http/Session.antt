-- ===== src/Http/Session.antt =====
-- A merchant's way through POST /auth/register, POST /auth/login and GET /auth/me.
use Prim.Native.String.{String, ◌++◌}
use payment_apis.Prelude.{ℕ, ◌+◌, ◌≤◌, ◌<◌, ◌≡◌, refl, true, Option, some, first}
use payment_apis.Db.{Db, ok}
use payment_apis.Merchant.{has_email, has_id}
use payment_apis.Auth.{
  AuthTokenPayload, RegisterDto, LoginDto, PublicMerchant, AuthResponse, sign_token, register,
  login, get_by_id, authenticate,
}
use payment_apis.Auth.Session.{claims, IsToken, session}
use payment_apis.Idempotency.{Response}
use payment_apis.Http.{Body, merchant_body, auth_body, respond}
use payment_apis.Http.Controllers.{send, auth_register, auth_login, auth_me}
use payment_apis.Http.Routes.{
  Environment, success, validate_body, validated, auth, post_register, post_login, get_me,
  authenticated, auth_router, serve,
}

-- The same environment at another time.
abbrev pub at : ℕ → Environment → Environment
at clock env = record env { clock = clock }

-- `res.status(status).json(body)`
abbrev pub reply : Environment → ℕ → Body → Response
reply env status body = record { status = status; body = env.server.stringify body }

module _ (env : Environment) (authorization : Option String) (body : String) (db : Db) where
  served-register :
      (dto : RegisterDto) (m : PublicMerchant) (after : Db)
      → env.schemas.register body ≡ success dto
      → register env.libraries env.salt dto db ≡ (ok m, after)
      → serve env authorization (auth (post_register body)) db
        ≡ (ok (reply env 201 (merchant_body m)), after)
  unfolding serve auth_router validated validate_body respond auth_register send
  served-register dto m after parses done = rw parses (rw done refl)

  served-login :
      (dto : LoginDto) (result : AuthResponse)
      → env.schemas.login body ≡ success dto
      → login env.libraries env.clock dto db ≡ (ok result, db)
      → serve env authorization (auth (post_login body)) db
        ≡ (ok (reply env 200 (auth_body result)), db)
  unfolding serve auth_router validated validate_body respond auth_login send
  served-login dto result parses done = rw parses (rw done refl)

  served-me :
      (who : AuthTokenPayload) (m : PublicMerchant)
      → authenticate env.libraries env.clock authorization ≡ ok who
      → get_by_id who.sub db ≡ (ok m, db)
      → serve env authorization (auth get_me) db ≡ (ok (reply env 200 (merchant_body m)), db)
  unfolding serve auth_router authenticated respond auth_me send
  served-me who m known done = rw known (rw done refl)

-- A merchant who has registered logs in with the same password and the same email in any case, and with
-- the token reads the account for an hour: the three routes answer 201, 200 and 200 with the merchant, and
-- the last two change nothing. The schemas take the two bodies, bcrypt accepts what it hashed, the token is as
-- jsonwebtoken documents it, and no other session takes the merchant's row away.
pub session_round_trip :
    (env : Environment) (authorization : Option String) (body again_body : String)
    (dto : RegisterDto) (again : LoginDto) (db after later : Db) (m : PublicMerchant)
    (login_clock clock : ℕ)
    → env.schemas.register body ≡ success dto
    → env.schemas.login again_body ≡ success again
    → register env.libraries env.salt dto db ≡ (ok m, after)
    → env.libraries.to_lower_case again.email ≡ env.libraries.to_lower_case dto.email
    → again.password ≡ dto.password
    → env.libraries.compare dto.password (env.libraries.hash dto.password 10 env.salt) ≡ true
    → IsToken env.libraries (claims m) login_clock
    → login_clock ≤ clock
    → clock < login_clock + 3_600
    → first (has_email m.email) later.merchants ≡ first (has_email m.email) after.merchants
    → first (has_id m.id) later.merchants ≡ first (has_id m.id) after.merchants
    → let token = sign_token env.libraries login_clock (claims m) in
      (serve env authorization (auth (post_register body)) db
        ≡ (ok (reply env 201 (merchant_body m)), after))
      × (serve (at login_clock env) authorization (auth (post_login again_body)) later
          ≡ (ok (reply env 200 (auth_body (record { token = token; merchant = m }))), later))
      × (serve (at clock env) (some ("Bearer " ++ token)) (auth get_me) later
          ≡ (ok (reply env 200 (merchant_body m)), later))
session_round_trip env authorization body again_body dto again db after later m login_clock clock
      parses parses_again registered same_email same_password accepts signed from until by_email
      by_id =
    let (logged_in, known, account) =
      session env.libraries env.salt dto again db after later m login_clock clock registered
        same_email same_password accepts signed from until by_email by_id in
    (
      served-register env authorization body db dto m after parses registered,
      served-login (at login_clock env) authorization again_body later again _ parses_again
          logged_in,
      served-me (at clock env) _ body later (claims m) m known account,
    )
