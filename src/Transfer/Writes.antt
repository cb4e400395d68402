-- ===== src/Transfer/Writes.antt =====
-- What the transaction of a transfer has done when it returns.
use payment_apis.Prelude.{ℕ, suc, ◌<◌, ◌≡◌, subst, List, ◌∷◌, count, arith}
use payment_apis.Prelude.Double.{to_string}
use payment_apis.Prelude.Int.{pos, neg}
use payment_apis.Db.{
  Db, WalletRow, LedgerEntryRow, TransactionRow, TransactionType, Direction, ok, >>=-eq-ok, given,
}
use payment_apis.Db.Updates.{Updated}
use payment_apis.Wallet.{has_version, apply_delta_if_version}
use payment_apis.Wallet.Deltas.{Delta}
use payment_apis.Wallet.Updates.{with_wallets, apply_delta_if_version-eq-ok}
use payment_apis.Ledger.{create_transaction, add_entry}
use payment_apis.Transfer.{TransferResult, record_ledger, move_funds}

module _ (from to : WalletRow) (amount : ℕ) where
  -- The entries that `recordLedger` adds to a database.
  abbrev pub debit_entry : Db → LedgerEntryRow
  debit_entry db = record {
    id = db.uuid (suc db.drawn);
    transaction_id = db.uuid db.drawn;
    wallet_id = from.id;
    direction = Direction.debit;
    amount = to_string amount;
    currency = from.currency;
    created_at = db.now;
  }

  abbrev pub credit_entry : Db → LedgerEntryRow
  credit_entry db = record {
    id = db.uuid (suc (suc db.drawn));
    transaction_id = db.uuid db.drawn;
    wallet_id = to.id;
    direction = Direction.credit;
    amount = to_string amount;
    currency = to.currency;
    created_at = db.now;
  }

  abbrev pub transaction_row : Db → TransactionRow
  transaction_row db = record {
    id = db.uuid db.drawn;
    type = TransactionType.transfer;
    created_at = db.now;
  }

  abbrev pub recorded : Db → Db
  recorded db = record db {
    drawn = suc (suc (suc db.drawn));
    transactions = transaction_row db ∷ db.transactions;
    ledger_entries = credit_entry db ∷ debit_entry db ∷ db.ledger_entries;
  }

  record_ledger-eq-ok :
      (db : Db) (id : ℕ) (after : Db)
      → record_ledger from to amount db ≡ (ok id, after)
      → (0 < to_string amount) × (id ≡ db.uuid db.drawn) × (after ≡ recorded db)
  unfolding record_ledger create_transaction add_entry
  record_ledger-eq-ok db id after h = ground arith

  -- Both rows had the version that was read, and the balances moved in opposite directions.
  pub record Moved (db : Db) (result : TransferResult) (after : Db) : Type 0 where
    pub positive : 0 < to_string amount
    pub middle : List WalletRow
    pub last : List WalletRow
    pub from_met : count (has_version from.id from.version) db.wallets ≡ 1
    pub debited : Updated (has_version from.id from.version) (Delta (neg amount)) db.wallets middle
    pub to_met : count (has_version to.id to.version) middle ≡ 1
    pub credited : Updated (has_version to.id to.version) (Delta (pos amount)) middle last
    pub final : after ≡ with_wallets last (recorded db)
    pub answer : result ≡ record {
      transaction_id = db.uuid db.drawn;
      from_wallet_id = from.id;
      to_wallet_id = to.id;
      amount = amount;
      currency = from.currency;
    }

  pub move_funds-Moved :
      (db : Db) (result : TransferResult) (after : Db)
      → move_funds from to amount db ≡ (ok result, after)
      → Moved db result after
  unfolding move_funds
  move_funds-Moved db result after h =
      >>=-eq-ok (record_ledger from to amount) _ db result after h λ id db1 e1 h1.
        >>=-eq-ok (apply_delta_if_version from.id (neg amount) from.version) _ db1 result after h1
          λ ok_from db2 e2 h2.
            >>=-eq-ok (apply_delta_if_version to.id (pos amount) to.version) _ db2 result after h2
              λ ok_to db3 e3 h3. given (record_ledger-eq-ok db id db1 e1) λ (positive, same_id, r1).
                given
                  (apply_delta_if_version-eq-ok from.id (neg amount) from.version db1 ok_from db2
                    e2)
                  λ (ws1, u1, r2, n1).
                    given
                      (apply_delta_if_version-eq-ok to.id (pos amount) to.version db2 ok_to db3 e3)
                      λ (ws2, u2, r3, n2). record {
                        positive = positive;
                        middle = ws1;
                        last = ws2;
                        from_met = ground arith;
                        debited =
                            subst
                              (λ (s : Db).
                                Updated (has_version from.id from.version) (Delta (neg amount))
                                  s.wallets ws1)
                              r1 u1;
                        to_met = ground arith;
                        credited =
                            subst
                              (λ (s : Db).
                                Updated (has_version to.id to.version) (Delta (pos amount))
                                  s.wallets ws2)
                              r2 u2;
                        final = ground arith;
                        answer = ground arith;
                      }
