-- ===== src/Tests/Payments.antt =====
-- The first merchant's payment intents, in the sample database.
use payment_apis.Prelude.{◌+◌, ◌≡◌, refl, some, ◌∷◌, length, first, arith}
use payment_apis.Errors.{app, invalid_state_transition}
use payment_apis.Db.{Db, succeeded, canceled, ok, err, with_transaction}
use payment_apis.Wallet.{has_id}
use payment_apis.Wallet.Success.{receive_row}
use payment_apis.Webhook.Outbox.{listeners}
use payment_apis.Payment.{
  to_public_intent, confirm, cancel, cancel_body, assert_transition, find_by_id_for_update,
  update_status, set_status, transitions,
}
use payment_apis.Payment.Charge.{charge_answer, charged, charge_entry, charge_row}
use payment_apis.Payment.Confirm.{intent_of, with_status}
use payment_apis.Payment.Once.{confirm_once, cancel_once}
use payment_apis.Payment.Effect.{confirm_pays, confirm-ok, received}
use payment_apis.Payment.Lifecycle.{here, next, confirms, cancels, Follows, Reach-Follows}
use payment_apis.Sample.{first_wallet, waiting, sample}

confirm_pays_example :
    let (r, after) = confirm 1 21 sample in
    (r ≡ ok (charge_answer 1 waiting 11 sample))
    × (first (has_id 11) after.wallets ≡ some (receive_row 1_000 100 first_wallet))
    × (intent_of 1 21 after ≡ some (set_status 1_000 succeeded waiting))
    × (after.ledger_entries ≡ charge_entry 1 waiting 11 sample ∷ sample.ledger_entries)
    × (after.charges ≡ charge_row 1 waiting 11 sample ∷ sample.charges)
    × (length after.webhook_events ≡ length (listeners 1 sample) + length sample.webhook_events)
confirm_pays_example =
    confirm_pays 1 21 sample waiting first_wallet refl refl refl refl
      ((λ e. absurd (omega arith), tt), (tt, tt)) (omega arith) (omega arith)

-- The state after the confirmation.
abbrev paid : Db
paid = charged 1 waiting 11 sample (
    received 1 21 sample waiting first_wallet refl refl refl refl
      ((λ e. absurd (omega arith), tt), (tt, tt)) (omega arith) (omega arith))

confirmed : confirm 1 21 sample ≡ (ok (charge_answer 1 waiting 11 sample), paid)
confirmed =
    confirm-ok 1 21 sample waiting first_wallet refl refl refl refl
      ((λ e. absurd (omega arith), tt), (tt, tt)) (omega arith) (omega arith)

confirm_once_example :
    (confirm 1 21 paid ≡ (err (app (invalid_state_transition "succeeded" "confirm")), paid))
    × (cancel 1 21 paid ≡ (err (app (invalid_state_transition "succeeded" "cancel")), paid))
confirm_once_example = confirm_once 1 21 sample (charge_answer 1 waiting 11 sample) paid confirmed

abbrev dropped : Db
dropped = with_status 21 canceled sample

cancelled :
    cancel 1 21 sample ≡ (ok (to_public_intent (record waiting { status = canceled })), dropped)
unfolding cancel cancel_body with_transaction find_by_id_for_update assert_transition transitions
    update_status
cancelled = refl

cancel_once_example :
    (confirm 1 21 dropped ≡ (err (app (invalid_state_transition "canceled" "confirm")), dropped))
    × (cancel 1 21 dropped ≡ (err (app (invalid_state_transition "canceled" "cancel")), dropped))
cancel_once_example =
    cancel_once 1 21 sample (to_public_intent (record waiting { status = canceled })) dropped
      cancelled

-- The first merchant confirms one intent and cancels the other.
Reach-Follows_example :
    Follows sample.payment_intents (cancel 1 22 (confirm 1 21 sample).1).1.payment_intents
Reach-Follows_example =
    Reach-Follows (next (next here (confirms 1 21)) (cancels 1 22))
      ((λ e. absurd (omega arith), tt), (tt, tt))
