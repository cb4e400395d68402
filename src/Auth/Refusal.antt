-- ===== src/Auth/Refusal.antt =====
-- What src/middleware/authenticate.ts refuses, and how.
use Prim.Native.String.{String, slice, len}
use text.Mathlib.Text.{◌==◌ as ◌=ₛ◌, starts_with}
use payment_apis.Prelude.{ℕ, ◌≡◌, ◌≢◌, ◌⊎◌, refl, inl, inr, Option, none, some, Bool-cases}
use payment_apis.Errors.{AppError, app, unauthorized, status_code}
use payment_apis.Db.{Result, ok, err}
use payment_apis.Auth.{
  Libraries, AuthTokenPayload, Verified, decoded, expired, malformed, claims_of, token_after,
  bearer_token, verify_token, authenticate,
}

-- An error that is answered with 401.
abbrev pub IsUnauthorized : {A : Type 0} → Result A → Type 0
IsUnauthorized r = (e : AppError) × (r ≡ err (app e)) × (status_code e ≡ 401)

token_after-cases :
    (libraries : Libraries) (header : String)
    → ((token : String) × (token_after libraries header ≡ ok token))
      ⊎ IsUnauthorized (token_after libraries header)
unfolding token_after status_code
token_after-cases libraries header =
    let token = libraries.trim (slice header (len "Bearer ") (len header)) in
    elim (Bool-cases (token =ₛ "")) [
      | inl empty ↦ inr (unauthorized "Missing bearer token", rw empty refl, refl)
      | inr present ↦ inl (token, rw present refl)
    ]

bearer_token-cases :
    (libraries : Libraries) (authorization : Option String)
    → ((token : String) × (bearer_token libraries authorization ≡ ok token))
      ⊎ IsUnauthorized (bearer_token libraries authorization)
unfolding bearer_token status_code
bearer_token-cases libraries none = inr (_, refl, refl)
bearer_token-cases libraries (some header) = elim (Bool-cases (starts_with header "Bearer ")) [
  | inl bearer ↦ rw bearer (token_after-cases libraries header)
  | inr other ↦ inr (unauthorized "Missing or malformed Authorization header", rw other refl, refl)
]

claims_of-refuses :
    (verified : Verified)
    → ((payload : AuthTokenPayload) → verified ≢ decoded payload)
    → IsUnauthorized (claims_of verified)
unfolding claims_of status_code
claims_of-refuses (decoded payload) never = absurd (never payload refl)
claims_of-refuses expired never = (_, refl, refl)
claims_of-refuses malformed never = (_, refl, refl)

-- The middleware refuses whatever the library does.
pub authenticate-refuses :
    (libraries : Libraries) (clock : ℕ) (authorization : Option String)
    → ((token : String) (payload : AuthTokenPayload)
        → bearer_token libraries authorization ≡ ok token
        → libraries.verify token libraries.secret clock ≢ decoded payload)
    → IsUnauthorized (authenticate libraries clock authorization)
unfolding authenticate verify_token
authenticate-refuses libraries clock authorization never =
    elim (bearer_token-cases libraries authorization) [
      | inl (token, sent) ↦ rw sent (
          claims_of-refuses (libraries.verify token libraries.secret clock)
            (λ p. never token p sent))
      | inr (e, refused, status) ↦ (e, rw refused refl, status)
    ]
