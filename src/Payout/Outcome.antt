-- ===== src/Payout/Outcome.antt =====
-- How `processOne` of src/payouts/payout.service.ts ends.
use Prim.Native.String.{String}
use payment_apis.Prelude.{
  ℕ, suc, ◌+◌, ◌≤◌, ◌<◌, ◌≡◌, refl, subst, sym, inl, inr, true, false, Option, none, some, List, [],
  ◌∷◌, first, update, arith, first-passes, Distinct, ltb, ◌==◌, Bool-cases, Option-cases, length,
}
use payment_apis.Errors.{Error, DbError}
use payment_apis.Db.{
  Db, WalletRow, PayoutRow, PayoutAccountRow, PayoutStatus, bigint_end, make_interval, ok,
}
use payment_apis.Wallet.{has_id}
use payment_apis.Wallet.Deltas.{ids}
use payment_apis.Wallet.Success.{receive_row, try_update-receive, first-received}
use payment_apis.Webhook.Outbox.{listeners, length-fan_out}
use payment_apis.Books.{IsBooked}
use payment_apis.Payout.{
  max_attempts, backoff_seconds, ends_with_zeros, simulate_bank_transfer, reverse_payout,
  error_message, on_failure, process_one, find_account_by_id, mark_retry,
}
use payment_apis.Payout.Process.{
  obstacle, account_of, paid_row, marked, completed, pay-obstacle, pay-clear, reversal_entry,
  failed_row, reverse_payout-ok, reverse_payout-IsBooked,
}

-- `WHERE id = $1`
abbrev pub find_payout : ℕ → Db → Option PayoutRow
find_payout id db = first (λ p. p.id == id) db.payouts

first-marked :
    (id : ℕ) (f : PayoutRow → PayoutRow) (p : PayoutRow) (ps : List PayoutRow)
    → ((q : PayoutRow) → (f q).id ≡ q.id)
    → first (λ p. p.id == id) ps ≡ some p
    → first (λ p. p.id == id) (update (λ p. p.id == id) f ps) ≡ some (f p)
first-marked id f p [] same e = cc
first-marked id f p (q ∷ ps) same e = elim (Bool-cases (q.id == id)) [
  | inl hit ↦ let found : q ≡ p = ground arith in rw found (ground (arith, same p))
  | inr miss ↦ ground (arith, same q, first-marked id f p ps same (rw miss at e))
]

module _ (db_message : DbError → String) (outage : Option Error) (payout : PayoutRow)
    (db : Db) where
  -- The payout as a failure before the last one leaves it.
  abbrev pub retry_row : Error → PayoutRow → PayoutRow
  retry_row e p = record p {
    attempts = suc payout.attempts;
    next_attempt_at = db.now + make_interval (backoff_seconds (suc payout.attempts));
    failure_reason = some (error_message db_message e);
    updated_at = db.now;
  }

  process_one-clear :
      obstacle outage (account_of payout db) ≡ none
      → process_one db_message outage payout db ≡ (ok tt, completed payout db)
  unfolding process_one find_account_by_id
  process_one-clear h = rw (pay-clear payout db outage (account_of payout db) h) refl

  process_one-retry :
      (e : Error)
      → obstacle outage (account_of payout db) ≡ some e
      → suc payout.attempts < max_attempts
      → process_one db_message outage payout db ≡ (ok tt, marked payout db (retry_row e))
  unfolding process_one find_account_by_id on_failure mark_retry
  process_one-retry e h early =
      let again : ltb (suc payout.attempts) max_attempts ≡ true = ground arith in
      rw (pay-obstacle payout db outage (account_of payout db) e h) (rw again refl)

  process_one-last :
      (e : Error)
      → obstacle outage (account_of payout db) ≡ some e
      → max_attempts ≤ suc payout.attempts
      → process_one db_message outage payout db
        ≡ reverse_payout payout (suc payout.attempts) (error_message db_message e) db
  unfolding process_one find_account_by_id on_failure
  process_one-last e h late =
      let over : ltb (suc payout.attempts) max_attempts ≡ false = ground arith in
      rw (pay-obstacle payout db outage (account_of payout db) e h) (rw over refl)

  -- Processing one payout keeps the books, however it ends.
  pub process_one-IsBooked : IsBooked db → IsBooked (process_one db_message outage payout db).1
  process_one-IsBooked b = elim (Option-cases (obstacle outage (account_of payout db))) [
    | inl clear ↦
        rw (process_one-clear clear) record { distinct = b.distinct; reconciled = b.reconciled }
    | inr (e, h) ↦ elim (Bool-cases (ltb (suc payout.attempts) max_attempts)) [
      | inl early ↦
          rw (process_one-retry e h (ground arith))
            record { distinct = b.distinct; reconciled = b.reconciled }
      | inr late ↦
          rw (process_one-last e h (ground arith))
            (reverse_payout-IsBooked payout (suc payout.attempts) (error_message db_message e) db b)
    ]
  ]

module _ (db_message : DbError → String) (outage : Option Error) (payout row : PayoutRow) (db : Db)
    (stored : find_payout payout.id db ≡ some row) where
  -- A payout of the table, to an active account that the bank takes, without an outage, is paid:
  -- wallets and ledger stay as they are, and the outbox has one event more for each active
  -- endpoint of the merchant.
  pub process_one_pays :
      obstacle outage (account_of payout db) ≡ none
      → let (r, after) = process_one db_message outage payout db in
        (r ≡ ok tt)
        × (find_payout payout.id after ≡ some (paid_row payout db row))
        × (after.wallets ≡ db.wallets)
        × (after.ledger_entries ≡ db.ledger_entries)
        × (length after.webhook_events
            ≡ length (listeners payout.merchant_id db) + length db.webhook_events)
  process_one_pays clear = rw (process_one-clear db_message outage payout db clear) (
    refl,
    first-marked payout.id (paid_row payout db) row db.payouts (λ q. refl) stored,
    refl,
    refl,
    length-fan_out payout.merchant_id "payout.paid" _ db.uuid db.now _
        (listeners payout.merchant_id db) db.webhook_events,
  )

  -- A payout of the table that something stands in the way of, on its first or second attempt,
  -- stays as it is but for one attempt more, the reason, and a next attempt after the backoff; no
  -- money moves and no event is emitted.
  pub process_one_retries :
      (e : Error)
      → obstacle outage (account_of payout db) ≡ some e
      → suc payout.attempts < max_attempts
      → let (r, after) = process_one db_message outage payout db in
        (r ≡ ok tt)
        × (find_payout payout.id after ≡ some (retry_row db_message outage payout db e row))
        × (after.wallets ≡ db.wallets)
        × (after.ledger_entries ≡ db.ledger_entries)
        × (after.webhook_events ≡ db.webhook_events)
  process_one_retries e h early = rw (process_one-retry db_message outage payout db e h early) (
    refl,
    first-marked payout.id (retry_row db_message outage payout db e) row db.payouts (λ q. refl)
        stored,
    refl,
    refl,
    refl,
  )

  -- A payout of the table, of a positive amount, that something stands in the way of on its last
  -- attempt is reversed, where wallet ids are distinct and its wallet is there with room for the
  -- amount: the wallet gets the amount back, the ledger has one credit more, the payout is failed
  -- with the reason, and the outbox has one event more for each active endpoint of the merchant.
  pub process_one_reverses :
      (e : Error) (w : WalletRow)
      → obstacle outage (account_of payout db) ≡ some e
      → max_attempts ≤ suc payout.attempts
      → 0 < payout.amount
      → Distinct (ids db.wallets)
      → first (has_id payout.wallet_id) db.wallets ≡ some w
      → w.balance + payout.amount < bigint_end
      → let (r, after) = process_one db_message outage payout db in
        let reason = error_message db_message e in
        (r ≡ ok tt)
        × (first (has_id payout.wallet_id) after.wallets
            ≡ some (receive_row db.now payout.amount w))
        × (find_payout payout.id after
            ≡ some (failed_row payout (suc payout.attempts) reason db row))
        × (after.ledger_entries
            ≡ reversal_entry payout (suc payout.attempts) reason db w.id ∷ db.ledger_entries)
        × (length after.webhook_events
            ≡ length (listeners payout.merchant_id db) + length db.webhook_events)
  process_one_reverses e w h late positive distinct found room =
      let reason = error_message db_message e in
      let same : w.id ≡ payout.wallet_id =
        ground (arith, first-passes (has_id payout.wallet_id) db.wallets w found) in
      let itself : first (has_id w.id) db.wallets ≡ some w =
        subst (λ i. first (has_id i) db.wallets ≡ some w) (sym same) found in
      let received = update (has_id w.id) (receive_row db.now payout.amount) db.wallets in
      rw (process_one-last db_message outage payout db e h late) (
        rw
          (reverse_payout-ok payout (suc payout.attempts) reason db w received positive found
            (try_update-receive db.now payout.amount w w.id db.wallets distinct itself room))
          (
            refl,
            subst (λ i. first (has_id i) received ≡ some (receive_row db.now payout.amount w)) same
                (first-received w.id db.now payout.amount w db.wallets itself),
            first-marked payout.id (failed_row payout (suc payout.attempts) reason db) row
                db.payouts (λ q. refl) stored,
            refl,
            length-fan_out payout.merchant_id "payout.failed" _ db.uuid db.now _
                (listeners payout.merchant_id db) db.webhook_events,
          ))

-- An outage after the bank took the money: for a pending payout of the table to an active account
-- that the bank takes, on its first or second attempt, the transfer returns, and yet the payout
-- is left pending, to be sent to the bank again after the backoff.
pub process_one_outage :
    (db_message : DbError → String) (e : Error) (payout row : PayoutRow)
    (account : PayoutAccountRow) (db : Db)
    → find_payout payout.id db ≡ some row
    → row.status ≡ PayoutStatus.pending
    → account_of payout db ≡ some account
    → account.is_active ≡ true
    → ends_with_zeros account.account_number ≡ false
    → suc payout.attempts < max_attempts
    → (simulate_bank_transfer account db ≡ (ok tt, db))
      × ((p : PayoutRow) × (find_payout payout.id (process_one db_message (some e) payout db).1
            ≡ some p)
          × (p.status ≡ PayoutStatus.pending)
          × (p.next_attempt_at ≡ db.now + make_interval (backoff_seconds (suc payout.attempts))))
unfolding simulate_bank_transfer
process_one_outage db_message e payout row account db stored pending there active good early =
    let blocked : obstacle (some e) (account_of payout db) ≡ some e =
      rw there (rw active (rw good refl)) in
    let (r, left, kept, entries, events) =
      process_one_retries db_message (some e) payout row db stored e blocked early in
    (rw good refl, (retry_row db_message (some e) payout db e row, left, pending, refl))
