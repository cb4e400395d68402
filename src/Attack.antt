-- ===== src/Attack.antt =====
-- src/attack.ts: the script that fires transfers at the server and audits the books. What it prints between the
-- figures is left out. The requests run one after the other here,
-- in any order that the server takes them, and nothing else runs meanwhile.
pub mod Keyless
pub mod Audit
pub mod Seeded
use Prim.Native.String.{String, ◌++◌ as ◌++ₛ◌}
use payment_apis.Prelude.{
  ℕ, zero, suc, ◌+◌, ◌-◌, ◌*◌, Bool, ◌&&◌, Option, none, some, List, [], ◌∷◌, first, any, count,
  update, length, ◌==◌,
}
use payment_apis.Errors.{plain}
use payment_apis.Db.{
  Db, WalletRow, usd, currency_eq, Void, Exec, pure, raise, gets, modify, ◌>>=◌, ◌>>◌,
}
use payment_apis.Merchant.{has_email}
use payment_apis.Idempotency.{Response}
use payment_apis.Http.Routes.{Environment, auth, post_login, transfers, post_transfers, serve}

-- CONCURRENCY, AMOUNT and START
abbrev pub concurrency : ℕ
concurrency = 30

abbrev pub amount : ℕ
amount = 100

abbrev pub start_balance : ℕ
start_balance = 100_000

-- The WHERE clause of `getWallet`, with its JOIN.
abbrev pub is_wallet_of : String → Db → WalletRow → Bool
is_wallet_of email db w =
    any (λ m. (m.id == w.merchant_id) && has_email email m) db.merchants
    && currency_eq w.currency usd

unfoldable pub get_wallet : String → Exec (Option WalletRow)
get_wallet email = gets (λ db. first (is_wallet_of email db) db.wallets)

-- A property of a row, where there may be none.
abbrev pub defined : {A : Type 0} → String → Option A → Exec A
defined name none =
    raise (plain ("Cannot read properties of undefined (reading '" ++ₛ name ++ₛ "')"))
defined name (some a) = pure a

-- `UPDATE wallets SET balance = $1 WHERE id = ANY($2)`
abbrev pub is_any : List ℕ → WalletRow → Bool
is_any ids w = any (λ id. id == w.id) ids

abbrev pub refilled : WalletRow → WalletRow
refilled w = record w { balance = start_balance }

abbrev pub refill : List ℕ → Db → Db
refill ids db = record db { wallets = update (is_any ids) refilled db.wallets }

-- What `JSON.stringify` and `res.json()` make of the bodies.
pub record Texts : Type 0 where
  pub login_body : (email password : String) → String
  pub transfer_body : (from_wallet_id to_wallet_id amount : ℕ) → String
  pub token : Response → String

pub record Report : Type 0 where
  pub successes : ℕ
  pub failures : ℕ
  pub final_alice : ℕ
  pub final_bob : ℕ
  pub books_balance : Bool

-- The verdict. Its subtractions are written as sums on the other side.
pub balances : ℕ → ℕ → ℕ → Bool
balances successes final_alice final_bob =
    (final_alice + successes * amount == start_balance)
    && ((final_bob == start_balance + successes * amount)
        && (final_alice + final_bob == 2 * start_balance))

pub report_of : List ℕ → ℕ → ℕ → Report
report_of statuses final_alice final_bob =
    let successes = count (λ s. s == 201) statuses in
    record {
      successes = successes;
      failures = length statuses - successes;
      final_alice = final_alice;
      final_bob = final_bob;
      books_balance = balances successes final_alice final_bob;
    }

module _ (env : Environment) (texts : Texts) where
  -- `login`
  pub login : String → String → Exec String
  login email password = do
    response ← serve env none (auth (post_login (texts.login_body email password)))
    pure (texts.token response)

  -- One request. It has no Idempotency-Key.
  pub request : String → ℕ → ℕ → Exec Response
  request token from_wallet_id to_wallet_id =
      serve env (some ("Bearer " ++ₛ token))
        (transfers (post_transfers none (texts.transfer_body from_wallet_id to_wallet_id amount)))

  -- `Promise.all(requests)`, and the statuses
  pub fire : ℕ → String → ℕ → ℕ → Exec (List ℕ)
  fire zero token from_wallet_id to_wallet_id = pure []
  fire (suc n) token from_wallet_id to_wallet_id = do
    response ← request token from_wallet_id to_wallet_id
    statuses ← fire n token from_wallet_id to_wallet_id
    pure (response.status ∷ statuses)

  -- What follows the reset.
  pub attack_between : WalletRow → WalletRow → Exec Report
  attack_between alice bob = do
    token ← login "alice@seed.local" "password123"
    statuses ← fire concurrency token alice.id bob.id
    last_alice ← get_wallet "alice@seed.local"
    final_alice ← defined "balance" last_alice
    last_bob ← get_wallet "bob@seed.local"
    final_bob ← defined "balance" last_bob
    pure (report_of statuses final_alice.balance final_bob.balance)

  -- `main`
  pub attack : Exec Report
  attack = do
    first_alice ← get_wallet "alice@seed.local"
    first_bob ← get_wallet "bob@seed.local"
    alice ← defined "id" first_alice
    bob ← defined "id" first_bob
    modify (refill (alice.id ∷ bob.id ∷ []))
    attack_between alice bob
