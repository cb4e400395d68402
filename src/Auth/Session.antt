-- ===== src/Auth/Session.antt =====
-- From registration to an authenticated request, over src/auth/ and src/middleware/authenticate.ts.
use Prim.Native.String.{String, ◌++◌}
use text.Mathlib.Text.{◌==◌ as ◌=ₛ◌}
use text.Mathlib.TextPositions.{eq_refl, len-append, slice-append_right, starts_with-append}
use payment_apis.Prelude.{
  ℕ, ◌+◌, ◌≤◌, ◌<◌, ◌≡◌, refl, ap, sym, ◌∙◌, subst, inl, inr, true, false, some, ◌∷◌, first, any,
  ==-refl, arith, Bool-cases, Option-cases,
}
use payment_apis.Errors.{app, invalid_credentials}
use payment_apis.Db.{Db, MerchantRow, ok, err}
use payment_apis.Merchant.{has_email, has_id, insert_row, insert, find_by_email, find_by_id}
use payment_apis.Auth.{
  Libraries, AuthTokenPayload, decoded, RegisterDto, LoginDto, PublicMerchant, to_public_merchant,
  hash_password, verify_password, sign_token, verify_token, register, login_as, login, bearer_token,
  token_after, authenticate, get_by_id, claims_of,
}

module _ (libraries : Libraries) where
  -- The row that `register` inserts.
  abbrev pub new_merchant : String → RegisterDto → Db → MerchantRow
  new_merchant salt dto db = record {
    id = db.uuid db.drawn;
    email = libraries.to_lower_case dto.email;
    password_hash = hash_password libraries salt dto.password;
    created_at = db.now;
    updated_at = db.now;
  }

  pub register-eq-ok :
      (salt : String) (dto : RegisterDto) (db : Db) (m : PublicMerchant) (after : Db)
      → register libraries salt dto db ≡ (ok m, after)
      → (m ≡ to_public_merchant (new_merchant salt dto db))
        × (after.merchants ≡ new_merchant salt dto db ∷ db.merchants)
  unfolding register insert insert_row
  register-eq-ok salt dto db m after h =
      elim (Bool-cases (any (has_email (libraries.to_lower_case dto.email)) db.merchants)) [
        | inl taken ↦ absurd (ground arith)
        | inr free ↦ (ground arith, ground arith)
      ]

  login-found :
      (clock : ℕ) (dto : LoginDto) (row : MerchantRow) (db : Db)
      → first (has_email (libraries.to_lower_case dto.email)) db.merchants ≡ some row
      → libraries.compare dto.password row.password_hash ≡ true
      → login libraries clock dto db ≡ (
        ok (record {
          token = sign_token libraries clock (record { sub = row.id; email = row.email });
          merchant = to_public_merchant row;
        }),
        db,
      )
  unfolding login find_by_email login_as verify_password
  login-found clock dto row db found same = rw found (rw same refl)

  -- A login with an unknown email and one with a wrong password fail alike, with invalid_credentials, and
  -- change nothing.
  pub login-refuses :
      (clock : ℕ) (dto : LoginDto) (db : Db)
      → ((row : MerchantRow)
          → first (has_email (libraries.to_lower_case dto.email)) db.merchants ≡ some row
          → libraries.compare dto.password row.password_hash ≡ false)
      → login libraries clock dto db ≡ (err (app invalid_credentials), db)
  unfolding login find_by_email login_as verify_password
  login-refuses clock dto db wrong =
      elim (Option-cases (first (has_email (libraries.to_lower_case dto.email)) db.merchants)) [
        | inl unknown ↦ rw unknown refl
        | inr (row, found) ↦ rw found (rw (wrong row found) refl)
      ]

  -- A header of the form that clients send.
  authenticate-bearer :
      (clock : ℕ) (token : String) (payload : AuthTokenPayload)
      → libraries.trim token ≡ token
      → (token =ₛ "") ≡ false
      → libraries.verify token libraries.secret clock ≡ decoded payload
      → authenticate libraries clock (some ("Bearer " ++ token)) ≡ ok payload
  unfolding authenticate bearer_token token_after verify_token claims_of
  authenticate-bearer clock token payload trimmed nonempty valid =
      rw (starts_with-append "Bearer " token) (
        rw (len-append "Bearer " token)
          (rw (slice-append_right "Bearer " token) (rw trimmed (rw nonempty (rw valid refl)))))

-- The claims that `login` puts into a merchant's token.
abbrev pub claims : PublicMerchant → AuthTokenPayload
claims m = record { sub = m.id; email = m.email }

-- What the libraries document of a token that was signed at a time: it holds for an hour, and has no space
-- at its ends.
pub record IsToken (libraries : Libraries) (payload : AuthTokenPayload) (clock : ℕ) : Type 0 where
  pub valid :
      (later : ℕ)
      → clock ≤ later
      → later < clock + 3_600
      → libraries.verify (sign_token libraries clock payload) libraries.secret later
        ≡ decoded payload
  pub trimmed :
      libraries.trim (sign_token libraries clock payload) ≡ sign_token libraries clock payload
  pub nonempty : (sign_token libraries clock payload =ₛ "") ≡ false

get_by_id-found :
    (row : MerchantRow) (id : ℕ) (db : Db)
    → first (has_id id) db.merchants ≡ some row
    → get_by_id id db ≡ (ok (to_public_merchant row), db)
unfolding get_by_id find_by_id
get_by_id-found row id db found = rw found refl

-- A registered merchant's login, the token's claims, and the account, with the libraries as documented and
-- the row left alone by others.
pub session :
    (libraries : Libraries) (salt : String) (dto : RegisterDto) (again : LoginDto)
    (db after later : Db) (m : PublicMerchant) (login_clock clock : ℕ)
    → register libraries salt dto db ≡ (ok m, after)
    → libraries.to_lower_case again.email ≡ libraries.to_lower_case dto.email
    → again.password ≡ dto.password
    → libraries.compare dto.password (libraries.hash dto.password 10 salt) ≡ true
    → IsToken libraries (claims m) login_clock
    → login_clock ≤ clock
    → clock < login_clock + 3_600
    → first (has_email m.email) later.merchants ≡ first (has_email m.email) after.merchants
    → first (has_id m.id) later.merchants ≡ first (has_id m.id) after.merchants
    → let token = sign_token libraries login_clock (claims m) in
      (login libraries login_clock again later
        ≡ (ok (record { token = token; merchant = m }), later))
      × (authenticate libraries clock (some ("Bearer " ++ token)) ≡ ok (claims m))
      × (get_by_id m.id later ≡ (ok m, later))
unfolding hash_password
session libraries salt dto again db after later m login_clock clock registered same_email
      same_password accepts signed from until by_email by_id =
    let row = new_merchant libraries salt dto db in
    let (shown, table) = register-eq-ok libraries salt dto db m after registered in
    let email : m.email ≡ row.email = ap (λ (x : PublicMerchant). x.email) shown in
    let id : m.id ≡ row.id = ap (λ (x : PublicMerchant). x.id) shown in
    let found : first (has_email (libraries.to_lower_case again.email)) later.merchants ≡ some row =
      ap (λ e. first (has_email e) later.merchants) (same_email ∙ sym email)
      ∙ by_email
      ∙ rw email (rw table (rw (eq_refl row.email) refl)) in
    let found_id : first (has_id m.id) later.merchants ≡ some row =
      by_id ∙ rw id (rw table (rw (==-refl row.id) refl)) in
    let matches : libraries.compare again.password row.password_hash ≡ true =
      rw same_password accepts in
    (
      subst
          (λ (x : PublicMerchant). login libraries login_clock again later ≡ (
            ok (record { token = sign_token libraries login_clock (claims x); merchant = x }),
            later,
          ))
          (sym shown) (login-found libraries login_clock again row later found matches),
      authenticate-bearer libraries clock _ (claims m) signed.trimmed signed.nonempty
          (signed.valid clock from until),
      get_by_id-found row m.id later found_id
          ∙ ap (λ (x : PublicMerchant). (ok x, later)) (sym shown),
    )
