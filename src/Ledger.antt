-- ===== src/Ledger.antt =====
-- src/ledger/ledger.repository.ts: the tables transactions and ledger_entries. The references from an
-- entry to its transaction and its wallet are to rows that the same transaction made or read.
pub mod Tables
use payment_apis.Prelude.{ℕ, ◌∷◌, ◌==◌}
use payment_apis.Errors.{db_error, check_violation}
use payment_apis.Db.{
  TransactionType, Direction, Currency, Void, Exec, pure, modify, throw_if, gen_random_uuid, ◌>>=◌,
  ◌>>◌,
}

unfoldable pub create_transaction : TransactionType → Exec ℕ
create_transaction type = do
  id ← gen_random_uuid
  modify (λ db. record db {
    transactions = record { id = id; type = type; created_at = db.now } ∷ db.transactions;
  })
  pure id

-- CHECK (amount > 0)
unfoldable pub add_entry : ℕ → ℕ → Direction → ℕ → Currency → Exec Void
add_entry transaction_id wallet_id direction amount currency = do
  throw_if (amount == 0) (db_error check_violation)
  id ← gen_random_uuid
  modify (λ db. record db {
    ledger_entries =
        record {
          id = id;
          transaction_id = transaction_id;
          wallet_id = wallet_id;
          direction = direction;
          amount = amount;
          currency = currency;
          created_at = db.now;
        }
        ∷ db.ledger_entries;
  })
