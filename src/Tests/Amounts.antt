-- ===== src/Tests/Amounts.antt =====
-- A transfer of 2 ^ 60, which is a double, and which `toString` writes as another number.
use payment_apis.Prelude.{◌^◌, ◌≡◌, ◌≢◌, refl, [], ◌∷◌, arith}
use payment_apis.Prelude.Double.{to_string, shortest, double_of, gap, nearest}
use payment_apis.Prelude.Int.{◌+ℤ◌}
use payment_apis.Db.{Db, WalletRow, ok}
use payment_apis.Books.{IsBooked, net}
use payment_apis.Transfer.{CreateTransferDto, TransferResult, transfer}
use payment_apis.Transfer.Outcome.{quiet}
use payment_apis.Transfer.Inexact.{transfer_unbooks}
use payment_apis.Sample.{deposit, first_wallet, second_wallet, sample}

abbrev large : CreateTransferDto
large = record { from_wallet_id = 11; to_wallet_id = 12; amount = 2 ^ 60 }

abbrev rich_wallet : WalletRow
rich_wallet = record first_wallet { balance = 2 ^ 60 }

abbrev rich : Db
rich = record sample {
  wallets = rich_wallet ∷ second_wallet ∷ [];
  ledger_entries = deposit 2 11 (2 ^ 60) ∷ deposit 3 12 200 ∷ [];
}

rich-IsBooked : IsBooked rich
unfolding net ◌+ℤ◌
rich-IsBooked = record {
  distinct = ((λ e. absurd (omega arith), tt), (tt, tt));
  reconciled = (refl, (refl, tt));
}

text_of_large : to_string (2 ^ 60) ≡ 1_152_921_504_606_847_000
unfolding to_string shortest double_of gap nearest
text_of_large = refl

text_of_large-inexact : to_string (2 ^ 60) ≢ 2 ^ 60
text_of_large-inexact e = absurd (omega (arith, text_of_large, e))

transfer_unbooks_example :
    (result : TransferResult) × ((transfer quiet 1 large rich).0 ≡ ok result)
    × (¬ IsBooked (transfer quiet 1 large rich).1)
transfer_unbooks_example =
    transfer_unbooks rich_wallet second_wallet 1 large rich refl refl
      (record { owned = refl; same_currency = refl; enough = omega arith })
      (λ e. absurd (omega arith)) (omega arith) (omega arith, omega arith) (omega arith)
      (omega arith) text_of_large-inexact rich-IsBooked
