-- ===== src/Attack/Audit.antt =====
-- The audit of src/attack.ts: what its requests leave for it to find.
use Prim.Native.String.{String}
use payment_apis.Prelude.{
  ℕ, ◌≡◌, refl, ◌∙◌, ap, sym, subst, true, Bool, none, some, List, [], ◌∷◌, first, count, update,
  length, ◌==◌, inl, inr, arith, Bool-cases, Option-cases,
}
use payment_apis.Db.{Db, WalletRow, ok}
use payment_apis.Merchant.{has_email, find_by_email}
use payment_apis.Auth.{verify_password, login_as, login as auth_service_login}
use payment_apis.Http.App.{respond-answers}
use payment_apis.Http.Controllers.{send, auth_login}
use payment_apis.Http.{respond}
use payment_apis.Http.Routes.{
  Environment, validate_body, validated, auth, post_login, auth_router, serve,
}
use payment_apis.Attack.{
  Texts, Report, start_balance, concurrency, is_wallet_of, get_wallet, is_any, refilled, refill,
  report_of, balances, login, attack_between, attack,
}
use payment_apis.Attack.Keyless.{SafeParse-cases, fire-keyless}

module _ (env : Environment) where
  -- A login changes nothing.
  login-same : (body : String) (db : Db) → (serve env none (auth (post_login body)) db).1 ≡ db
  unfolding serve auth_router validated validate_body respond auth_login send auth_service_login
      login_as find_by_email
  login-same body db = elim (SafeParse-cases (env.schemas.login body)) [
    | inr (fields, fails) ↦ rw fails refl
    | inl (dto, parses) ↦
        elim (Option-cases
          (first (has_email (env.libraries.to_lower_case dto.email)) db.merchants)) [
            | inl missing ↦ rw parses (rw missing refl)
            | inr (m, found) ↦
                elim (Bool-cases (verify_password env.libraries dto.password m.password_hash)) [
                  | inl same ↦ rw parses (rw found (rw same refl))
                  | inr other ↦ rw parses (rw found (rw other refl))
                ]
          ]
  ]

  -- Nor does the script's, whatever the answer to it is.
  login-token :
      (texts : Texts) (email password : String) (db : Db)
      → (token : String) × (login env texts email password db ≡ (ok token, db))
  unfolding serve auth_router login
  login-token texts email password db =
      let body = texts.login_body email password in
      let handler =
        validated env env.schemas.login body (auth_login env.server env.libraries env.clock) in
      let (response, told) = respond-answers env handler db in
      let answer : serve env none (auth (post_login body)) db ≡ (ok response, db) =
        λ i. (told i, login-same body db i) in
      (texts.token response, rw answer refl)

some-injective : {A : Type 0} (x y : A) → some x ≡ some y → x ≡ y
some-injective x y h = cc

-- The first row that passes a test which does not read the balance, after the reset.
first-refilled :
    (p : WalletRow → Bool) (ids : List ℕ) (ws : List WalletRow) (w : WalletRow)
    → ((x : WalletRow) → p (refilled x) ≡ p x)
    → is_any ids w ≡ true
    → first p ws ≡ some w
    → first p (update (is_any ids) refilled ws) ≡ some (refilled w)
first-refilled p ids [] w blind listed found = absurd (ground arith)
first-refilled p ids (x ∷ ws) w blind listed found = elim (Bool-cases (p x)) [
  | inl hit ↦
      let same : x ≡ w = some-injective x w (rw hit at found) in
      let hit_too : p (refilled w) ≡ true = blind w ∙ ap p (sym same) ∙ hit in
      subst (λ (y : WalletRow). first p (update (is_any ids) refilled (y ∷ ws)) ≡ some (refilled w))
        (sym same) (rw listed (rw hit_too refl))
  | inr miss ↦
      let later = first-refilled p ids ws w blind listed (rw miss at found) in
      elim (Bool-cases (is_any ids x)) [
        | inl picked ↦ rw picked (rw (blind x ∙ miss) later)
        | inr passed ↦ rw passed (rw miss later)
      ]
]

abbrev idle_report : Report
idle_report = record {
  successes = 0;
  failures = concurrency;
  final_alice = start_balance;
  final_bob = start_balance;
  books_balance = true;
}

-- What the script makes of statuses without a 201 and of balances that it has set itself.
report_of-idle :
    (statuses : List ℕ)
    → length statuses ≡ concurrency
    → count (λ s. s == 201) statuses ≡ 0
    → report_of statuses start_balance start_balance ≡ idle_report
unfolding report_of balances
report_of-idle statuses long none_ok = rw none_ok (rw long refl)

module _ (env : Environment) (texts : Texts) (db : Db) (alice bob : WalletRow)
    (has_alice : first (is_wallet_of "alice@seed.local" db) db.wallets ≡ some alice)
    (has_bob : first (is_wallet_of "bob@seed.local" db) db.wallets ≡ some bob) where
  abbrev both : List ℕ
  both = alice.id ∷ bob.id ∷ []

  found-refilled :
      (email : String) (w : WalletRow)
      → first (is_wallet_of email db) db.wallets ≡ some w
      → is_any both w ≡ true
      → first (is_wallet_of email db) (update (is_any both) refilled db.wallets) ≡ some (refilled w)
  found-refilled email w found listed =
      first-refilled (is_wallet_of email db) both db.wallets w (λ x. refl) listed found

  -- Where Alice and Bob have a USD wallet each, every transfer that the script fires is refused, since none has
  -- an Idempotency-Key: it reports no success and thirty failures, finds the balances that it has set itself,
  -- and says that the books balance. Nothing but its reset has changed.
  pub attack_moves_nothing : attack env texts db ≡ (ok idle_report, refill both db)
  unfolding attack attack_between get_wallet
  attack_moves_nothing =
      let (token, logged_in) =
        login-token env texts "alice@seed.local" "password123" (refill both db) in
      let (statuses, fired, long, none_ok) =
        fire-keyless env texts concurrency token alice.id bob.id (refill both db) in
      let final_alice = found-refilled "alice@seed.local" alice has_alice (ground arith) in
      let final_bob = found-refilled "bob@seed.local" bob has_bob (ground arith) in
      let reported = report_of-idle statuses long none_ok in
      rw has_alice
        (rw has_bob (rw logged_in (rw fired (rw final_alice (rw final_bob (rw reported refl))))))
