-- ===== src/Transfer/Refinement.antt =====
-- src/transfers/transfer.service.ts against `pay` of Accounts.
use payment_apis.Prelude.{
  ℕ, suc, ◌+◌, ◌-◌, List, ◌≤◌, ◌<◌, ◌≡◌, ◌≢◌, refl, ap, subst, sym, inl, inr, true, false, Option,
  none, some, All, All-first, arith, Distinct, first, leb, ◌==◌, Bool-cases, first-passes, ==_iff,
}
use payment_apis.Errors.{Error, db_error, check_violation, out_of_range}
use payment_apis.Db.{
  Db, WalletRow, Currency, ngn, usd, currency_eq, Result, ok, err, bigint_end, integer_end,
  with_transaction, Result-cases, settle,
}
use payment_apis.Wallet.{HasRoom, has_id, find_by_id}
use payment_apis.Wallet.Deltas.{ids}
use payment_apis.Transfer.{
  CreateTransferDto, validate, transfer_rows, move_funds, attempt_transfer, is_conflict, retry_loop,
  transfer,
}
use payment_apis.Transfer.Outcome.{
  quiet, IsAllowed, validate-ok, currency_eq_refl, transfer_refused, transfer-ok, payer_after,
  payee_after, others_after, committed,
}
use payment_apis.Transfer.Success.{credited}
use payment_apis.Transfer.Overflow.{move_funds-zero, move_funds-out_of_range}
use payment_apis.Transfer.Accounts.{
  Accounts, account_of, seen, accounts, set, with_balance, settle_accounts, pay_between, pay,
  Refines,
}

-- The checks of the code are those of the promise.
pay_between-err :
    (from to : Option WalletRow) (caller : ℕ) (dto : CreateTransferDto) (a : Accounts) (e : Error)
    → validate from to caller dto.amount ≡ err e
    → pay_between caller dto (seen from) (seen to) a ≡ err e
unfolding validate
pay_between-err none to caller dto a e h = ground arith
pay_between-err (some from) none caller dto a e h = ground arith
pay_between-err (some from) (some to) caller dto a e h = ground arith

same_currency : (c d : Currency) → currency_eq c d ≡ true → c ≡ d
same_currency ngn ngn h = refl
same_currency usd usd h = refl
same_currency ngn usd h = cc
same_currency usd ngn h = cc

-- The rows that the code lets through.
pub validate-inversion :
    (from_row to_row : Option WalletRow) (caller amount : ℕ) (v : WalletRow × WalletRow × ℕ)
    → validate from_row to_row caller amount ≡ ok v
    → (from : WalletRow) × (to : WalletRow) × (from_row ≡ some from)
      × (to_row ≡ some to)
      × IsAllowed from to caller amount
unfolding validate
validate-inversion none to caller amount v h = cc
validate-inversion (some from) none caller amount v h = cc
validate-inversion (some from) (some to) caller amount v h = (
  from,
  to,
  refl,
  refl,
  record {
    owned = ground arith;
    same_currency = same_currency from.currency to.currency (ground arith);
    enough = ground arith;
  },
)

pay_between-ok :
    (from to : WalletRow) (caller : ℕ) (dto : CreateTransferDto) (a : Accounts)
    → IsAllowed from to caller dto.amount
    → pay_between caller dto (some (account_of from)) (some (account_of to)) a
      ≡ settle_accounts dto (account_of from) (account_of to) a
pay_between-ok from to caller dto a allowed = ground (
  arith,
  currency_eq_refl from.currency to.currency allowed.same_currency,
  allowed.owned,
  allowed.enough,
)

found_id :
    (id : ℕ) (w : WalletRow) (ws : List WalletRow) → first (has_id id) ws ≡ some w → w.id ≡ id
found_id id w ws e = (==_iff w.id id).0 (first-passes (has_id id) ws w e)

settle-err :
    {A : Type 0} (db : Db) (r : Result A × Db) (e : Error) → r.0 ≡ err e → settle db r ≡ (err e, db)
settle-err db (ok a, after) e h = cc
settle-err db (err x, after) e h = ground arith

module _ (caller : ℕ) (dto : CreateTransferDto) (db : Db) (from to : WalletRow)
    (payer : first (has_id dto.from_wallet_id) db.wallets ≡ some from)
    (payee : first (has_id dto.to_wallet_id) db.wallets ≡ some to)
    (allowed : IsAllowed from to caller dto.amount) where
  -- An error of the database is thrown at the first attempt.
  transfer-fails :
      (e : Error)
      → (move_funds from to dto.amount db).0 ≡ err e
      → is_conflict e ≡ false
      → transfer quiet caller dto db ≡ (err e, db)
  unfolding transfer retry_loop attempt_transfer find_by_id transfer_rows with_transaction
  transfer-fails e h thrown = rw payer (
      rw payee (
        rw (validate-ok from to caller dto.amount allowed)
          (rw (settle-err db (move_funds from to dto.amount db) e h) (rw thrown refl))))

  module _ (distinct : Distinct (ids db.wallets))
      (different : dto.to_wallet_id ≢ dto.from_wallet_id) (small : HasRoom from)
      (newer : suc to.version < integer_end) where
    zero-Refines :
        dto.amount ≡ 0
        → Refines
            (settle_accounts dto (account_of from) (account_of to) (accounts db))
            db
            (transfer quiet caller dto db)
    zero-Refines nothing =
        rw
          (transfer-fails (db_error check_violation)
            (subst (λ (n : ℕ). (move_funds from to n db).0 ≡ err (db_error check_violation))
              (sym nothing) (move_funds-zero from to db))
            refl)
          (rw nothing (refl, refl))

    full-Refines :
        0 < dto.amount
        → bigint_end ≤ to.balance + dto.amount
        → Refines
            (settle_accounts dto (account_of from) (account_of to) (accounts db))
            db
            (transfer quiet caller dto db)
    full-Refines positive full =
        let from_id = found_id dto.from_wallet_id from db.wallets payer in
        let to_id = found_id dto.to_wallet_id to db.wallets payee in
        let nonzero : (dto.amount == 0) ≡ false = ground arith in
        let over : leb bigint_end (to.balance + dto.amount) ≡ true = ground arith in
        let refused =
          move_funds-out_of_range from to dto.amount db distinct
            (subst (λ (j : ℕ). first (has_id j) db.wallets ≡ some from) (sym from_id) payer)
            (subst (λ (j : ℕ). first (has_id j) db.wallets ≡ some to) (sym to_id) payee)
            (ground arith) positive allowed.enough small full in
        rw (transfer-fails (db_error out_of_range) refused refl) (rw nonzero (rw over (refl, refl)))

    -- The wallets after the commit, as accounts.
    accounts_after :
        (positive : 0 < dto.amount) (room : to.balance + dto.amount < bigint_end) (id : ℕ)
        → accounts
            (committed from to caller dto db payer payee allowed distinct different positive small
              room newer)
            id
          ≡ set dto.to_wallet_id
              (with_balance (to.balance + dto.amount) (account_of to))
              (set dto.from_wallet_id
                (with_balance (from.balance - dto.amount) (account_of from))
                (accounts db))
              id
    accounts_after positive room id = elim (Bool-cases (id == dto.to_wallet_id)) [
      | inl e ↦ rw e (
          subst
            (λ (j : ℕ).
              seen (first (has_id j) (credited from to dto.amount db))
              ≡ some (with_balance (to.balance + dto.amount) (account_of to)))
            (sym ((==_iff id dto.to_wallet_id).0 e))
            (ap seen (
              payee_after from to caller dto db payer payee allowed distinct different positive
                small room newer)))
      | inr n ↦ elim (Bool-cases (id == dto.from_wallet_id)) [
        | inl e ↦ rw n (
            rw e (
              subst
                (λ (j : ℕ).
                  seen (first (has_id j) (credited from to dto.amount db))
                  ≡ some (with_balance (from.balance - dto.amount) (account_of from)))
                (sym ((==_iff id dto.from_wallet_id).0 e))
                (ap seen (
                  payer_after from to caller dto db payer payee allowed distinct different positive
                    small room newer))))
        | inr m ↦ rw n (
            rw m (
              ap seen (
                others_after from to caller dto db payer payee allowed distinct different positive
                  small room newer id (ground arith) (ground arith))))
      ]
    ]

    ok-Refines :
        0 < dto.amount
        → to.balance + dto.amount < bigint_end
        → Refines
            (settle_accounts dto (account_of from) (account_of to) (accounts db))
            db
            (transfer quiet caller dto db)
    ok-Refines positive room =
        let nonzero : (dto.amount == 0) ≡ false = ground arith in
        let within : leb bigint_end (to.balance + dto.amount) ≡ false = ground arith in
        rw
          (transfer-ok from to caller dto db payer payee allowed distinct different positive small
            room newer)
          (rw nonzero (rw within ((_, refl), λ id. accounts_after positive room id)))

    settled-Refines :
        Refines
          (settle_accounts dto (account_of from) (account_of to) (accounts db))
          db
          (transfer quiet caller dto db)
    settled-Refines = elim (Bool-cases (dto.amount == 0)) [
      | inl e ↦ zero-Refines ((==_iff dto.amount 0).0 e)
      | inr n ↦ elim (Bool-cases (leb bigint_end (to.balance + dto.amount))) [
        | inl full ↦ full-Refines (ground arith) (ground arith)
        | inr room ↦ ok-Refines (ground arith) (ground arith)
      ]
    ]

-- A transfer that no other session interferes with answers as the transfer between accounts does: the same
-- success, after which each account is the one promised, or the same error, after which all is as it was. Ids
-- are distinct, balances are in the BIGINT range, versions have an INTEGER after them, and the two wallets are
-- different.
pub transfer-Refines :
    (caller : ℕ) (dto : CreateTransferDto) (db : Db)
    → Distinct (ids db.wallets)
    → All HasRoom db.wallets
    → dto.to_wallet_id ≢ dto.from_wallet_id
    → Refines (pay caller dto (accounts db)) db (transfer quiet caller dto db)
transfer-Refines caller dto db distinct bounded different =
    elim (Result-cases (
      validate (first (has_id dto.from_wallet_id) db.wallets)
        (first (has_id dto.to_wallet_id) db.wallets) caller dto.amount)) [
          | inr (e, refused) ↦
              rw (transfer_refused caller dto db e refused)
                (rw (pay_between-err _ _ caller dto (accounts db) e refused) (refl, refl))
          | inl (v, valid) ↦
              let (from, to, payer, payee, allowed) =
                validate-inversion _ _ caller dto.amount v valid in
              let small =
                All-first HasRoom (has_id dto.from_wallet_id) db.wallets from bounded payer in
              let roomy = All-first HasRoom (has_id dto.to_wallet_id) db.wallets to bounded payee in
              subst (λ (a : Result Accounts). Refines a db (transfer quiet caller dto db))
                (sym
                  (rw payer (rw payee (pay_between-ok from to caller dto (accounts db) allowed))))
                (settled-Refines caller dto db from to payer payee allowed distinct different small
                  roomy.1)
        ]
