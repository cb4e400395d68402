-- ===== src/Tests/Accounts.antt =====
-- Transfers as movements between accounts, the books, and payment intents of one merchant.
use payment_apis.Prelude.{◌≡◌, refl, none, ◌∷◌, All, arith}
use payment_apis.Prelude.Double.{to_string}
use payment_apis.Errors.{app, payment_intent_not_found}
use payment_apis.Db.{Db, PaymentIntentRow, requires_confirmation, ok, err, usd, ngn}
use payment_apis.Wallet.{HasRoom, create as create_wallet, find_by_merchant_and_currency}
use payment_apis.Transfer.{CreateTransferDto, transfer}
use payment_apis.Transfer.Outcome.{quiet}
use payment_apis.Transfer.Accounts.{accounts, pay, Refines}
use payment_apis.Transfer.Refinement.{transfer-Refines}
use payment_apis.Payment.{
  CreatePaymentIntentDto, PublicPaymentIntent, insert, to_public_intent, create, get, confirm,
  cancel,
}
use payment_apis.Payment.Lookup.{created_for_one}
use payment_apis.Payout.{SettleableWallet, sweep_one}
use payment_apis.Books.{IsBooked}
use payment_apis.System.{Reach, here, next, opens, confirms, sweeps}
use payment_apis.System.Books.{Reach-IsBooked}
use payment_apis.Sample.{sample, sample-IsBooked}

abbrev dto : CreateTransferDto
dto = record { from_wallet_id = 11; to_wallet_id = 12; amount = 100 }

sample-HasRoom : All HasRoom sample.wallets
sample-HasRoom = ((omega arith, omega arith), ((omega arith, omega arith), tt))

transfer-Refines_example :
    Refines (pay 1 dto (accounts sample)) sample (transfer quiet 1 dto sample)
transfer-Refines_example =
    transfer-Refines 1 dto sample ((λ e. absurd (omega arith), tt), (tt, tt)) sample-HasRoom
      (λ e. absurd (omega arith))

abbrev order : CreatePaymentIntentDto
order = record { amount = 70; currency = ngn; customer_reference = none }

abbrev created_row : PaymentIntentRow
created_row = record {
  id = 100;
  merchant_id = 1;
  amount = 70;
  currency = ngn;
  status = requires_confirmation;
  customer_reference = none;
  created_at = 1_000;
  updated_at = 1_000;
}

abbrev ordered : PublicPaymentIntent
ordered = record {
  id = 100;
  amount = 70;
  currency = ngn;
  status = requires_confirmation;
  customer_reference = none;
  created_at = 1_000;
}

abbrev after : Db
after = record sample { drawn = 1; payment_intents = created_row ∷ sample.payment_intents }

creates : create 1 order sample ≡ (ok ordered, after)
unfolding create to_string find_by_merchant_and_currency insert to_public_intent
creates = refl

created_for_one_example :
    (get 1 100 after ≡ (ok ordered, after))
    × (get 2 100 after ≡ (err (app payment_intent_not_found), after))
    × (confirm 2 100 after ≡ (err (app payment_intent_not_found), after))
    × (cancel 2 100 after ≡ (err (app payment_intent_not_found), after))
created_for_one_example =
    created_for_one 1 2 order sample ordered after creates (λ e. absurd (omega arith)) refl

abbrev settleable : SettleableWallet
settleable = record {
  wallet_id = 11;
  merchant_id = 1;
  currency = ngn;
  balance = 600;
  account_id = 41;
}

abbrev busy : Db
busy = (sweep_one 100 settleable (confirm 1 21 (create_wallet 1 usd sample).1).1).1

-- A wallet is opened, an intent confirmed, and the wallet that was paid is settled.
abbrev settles : Reach sample busy
settles =
    next
      (next
        (next here (
          opens 1 usd ((λ e. absurd (omega arith), (λ e. absurd (omega arith), tt)))
            ((λ e. absurd (omega arith), (λ e. absurd (omega arith), tt)))))
        (confirms 1 21))
      (sweeps 100 settleable)

Reach-IsBooked_example : IsBooked busy
Reach-IsBooked_example = Reach-IsBooked settles sample-IsBooked
