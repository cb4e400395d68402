-- ===== src/Attack/Seeded.antt =====
-- src/attack.ts on the data of src/seed.ts.
use Prim.Native.String.{String}
use payment_apis.Prelude.{◌≡◌, refl, ap, false, Bool, none, List, [], ◌∷◌, All, first, arith}
use payment_apis.Prelude.Int.{ℤ}
use payment_apis.Errors.{plain}
use payment_apis.Db.{Db, WalletRow, currency_eq, usd, Result, err, Void}
use payment_apis.Db.Updates.{Updated, try_update-Updated}
use payment_apis.Wallet.{has_id, add_delta}
use payment_apis.Wallet.Deltas.{Delta, add_delta-Delta}
use payment_apis.Wallet.Closed.{of, from}
use payment_apis.Seed.{seed}
use payment_apis.Seed.Tables.{IsSeedClosed, seed-Of}
use payment_apis.Http.Routes.{Environment}
use payment_apis.Attack.{Texts, is_wallet_of, get_wallet, attack}

-- No wallet is in USD.
abbrev pub HasNoUsd : List WalletRow → Type 0
HasNoUsd = All (λ w. currency_eq w.currency usd ≡ false)

Updated-HasNoUsd :
    (p : WalletRow → Bool) (delta : ℤ) (xs ys : List WalletRow)
    → Updated p (Delta delta) xs ys
    → HasNoUsd xs
    → HasNoUsd ys
Updated-HasNoUsd p delta [] [] u r = tt
Updated-HasNoUsd p delta [] (y ∷ ys) u r = elim u [ ]
Updated-HasNoUsd p delta (x ∷ xs) [] u r = elim u [ ]
Updated-HasNoUsd p delta (x ∷ xs) (y ∷ ys) (c, u) (free, r) =
    (ground (arith, free), Updated-HasNoUsd p delta xs ys u r)

HasNoUsd-IsSeedClosed : IsSeedClosed HasNoUsd
HasNoUsd-IsSeedClosed = record {
  deltas = λ id now delta xs ys e r.
      Updated-HasNoUsd (has_id id) delta xs ys
        (try_update-Updated (has_id id) (Delta delta) (add_delta now delta) xs ys
          (add_delta-Delta now delta) e)
        r;
  opens = λ w xs is_ngn empty free r. (ap (λ c. currency_eq c usd) is_ngn, r);
}

-- `getWallet` finds none.
first-HasNoUsd :
    (email : String) (db : Db) (ws : List WalletRow)
    → HasNoUsd ws
    → first (is_wallet_of email db) ws ≡ none
first-HasNoUsd email db [] r = refl
first-HasNoUsd email db (w ∷ ws) (free, r) = ground (arith, first-HasNoUsd email db ws r)

-- On the data that the seed script leaves in a database without a USD wallet, whether it commits or rolls
-- back, the script reads a property of undefined and throws, and has changed nothing.
pub seeded_attack_throws :
    (env : Environment) (texts : Texts) (password_hash : String) (db after : Db)
    (result : Result Void)
    → HasNoUsd db.wallets
    → seed password_hash db ≡ (result, after)
    → attack env texts after
      ≡ (err (plain "Cannot read properties of undefined (reading 'id')"), after)
unfolding attack get_wallet
seeded_attack_throws env texts password_hash db after result none_usd seeded =
    let kept =
      from HasNoUsd _
        (seed-Of HasNoUsd HasNoUsd-IsSeedClosed password_hash db (of HasNoUsd db none_usd)) in
    let here : HasNoUsd after.wallets = rw seeded at kept in
    rw (first-HasNoUsd "alice@seed.local" after after.wallets here) refl
