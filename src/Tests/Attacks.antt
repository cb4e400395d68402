-- ===== src/Tests/Attacks.antt =====
-- The script of src/attack.ts on a database with USD wallets of its two merchants, and on seeded data.
use Prim.Native.String.{String}
use payment_apis.Prelude.{ℕ, ◌≡◌, refl, true, [], ◌∷◌}
use payment_apis.Errors.{plain}
use payment_apis.Db.{Db, MerchantRow, WalletRow, usd, ok, err}
use payment_apis.Attack.{Texts, start_balance, refill, attack}
use payment_apis.Attack.Audit.{attack_moves_nothing}
use payment_apis.Attack.Seeded.{seeded_attack_throws}
use payment_apis.Sample.{sample, first_merchant, first_wallet}
use payment_apis.Tests.Postings.{env}
use payment_apis.Tests.Seeds.{seeded, seeds}

abbrev texts : Texts
texts = record {
  login_body = λ email password. email;
  transfer_body = λ from to amount. "{}";
  token = λ response. "token";
}

abbrev merchant : ℕ → String → MerchantRow
merchant id email = record first_merchant { id = id; email = email }

abbrev usd_wallet : ℕ → ℕ → WalletRow
usd_wallet id merchant_id = record first_wallet {
  id = id;
  merchant_id = merchant_id;
  currency = usd;
}

abbrev alice : WalletRow
alice = usd_wallet 13 3

abbrev bob : WalletRow
bob = usd_wallet 14 4

abbrev with_usd : Db
with_usd = record sample {
  merchants = merchant 3 "alice@seed.local" ∷ merchant 4 "bob@seed.local" ∷ sample.merchants;
  wallets = first_wallet ∷ alice ∷ bob ∷ [];
}

attack_moves_nothing_example : attack env texts with_usd ≡ (
  ok (record {
    successes = 0;
    failures = 30;
    final_alice = start_balance;
    final_bob = start_balance;
    books_balance = true;
  }),
  refill (13 ∷ 14 ∷ []) with_usd,
)
attack_moves_nothing_example = attack_moves_nothing env texts with_usd alice bob refl refl

seeded_attack_throws_example :
    attack env texts seeded
    ≡ (err (plain "Cannot read properties of undefined (reading 'id')"), seeded)
seeded_attack_throws_example =
    seeded_attack_throws env texts "hash" sample seeded (ok tt) (refl, (refl, tt)) seeds
