-- ===== src/Tests/Seeds.antt =====
-- The seed data are written twice.
use payment_apis.Prelude.{◌≡◌, refl, ℕ}
use payment_apis.Prelude.Int.{◌+ℤ◌}
use payment_apis.Db.{Db, ok, with_transaction}
use payment_apis.Merchant.{find_by_email}
use payment_apis.Wallet.{add_delta, apply_delta, find_by_merchant_and_currency}
use payment_apis.Ledger.{create_transaction, add_entry}
use payment_apis.Seed.{fund, fund_once, seed_one, seed_all, seed}
use payment_apis.Seed.Again.{seed_twice}
use payment_apis.Sample.{sample}

abbrev pub seeded : Db
seeded = (seed "hash" sample).1

pub seeds : seed "hash" sample ≡ (ok tt, seeded)
unfolding seed with_transaction seed_all seed_one fund_once fund find_by_email
    find_by_merchant_and_currency create_transaction add_entry apply_delta add_delta ◌+ℤ◌
seeds = refl

seed_twice_example : (n : ℕ) × (seed "other hash" seeded ≡ (ok tt, record seeded { drawn = n }))
seed_twice_example = seed_twice "hash" "other hash" sample seeded seeds
