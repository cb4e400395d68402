-- ===== src/System.antt =====
-- All parts at once: the transactions of the server, the workers and src/seed.ts that move money, in any order, by
-- any sessions. The reset of src/attack.ts, which sets balances and writes no entries, is none of them.
pub mod Books
use Prim.Native.String.{String}
use payment_apis.Prelude.Double.{max_safe_integer}
use payment_apis.Prelude.{◌≤◌, ℕ, ◌≡◌, ◌≢◌, Option, All, Absent}
use payment_apis.Db.{Db, WalletRow, PayoutRow, Currency, with_transaction}
use payment_apis.Wallet.{create}
use payment_apis.Wallet.Deltas.{ids}
use payment_apis.Transfer.{CreateTransferDto, transfer_rows}
use payment_apis.Payment.{confirm}
use payment_apis.Seed.{seed}
use payment_apis.Seed.Books.{IsFresh}
use payment_apis.Payout.{SettleableWallet, sweep_one, reverse_payout}

-- One transaction that writes wallets or the ledger, whether it commits or rolls back, or a change that leaves
-- both alone. The amount of a transfer is a safe integer. It has read its rows at any time before. The UUIDs of new wallets are
-- new to both tables.
pub data Step (db : Db) : Db → Type 0 where
  transfers :
      (from_row to_row : Option WalletRow) (caller : ℕ) (dto : CreateTransferDto)
      → dto.amount ≤ max_safe_integer
      → Step db (with_transaction (transfer_rows from_row to_row caller dto) db).1
  confirms : (merchant_id id : ℕ) → Step db (confirm merchant_id id db).1
  sweeps : (min_amount : ℕ) (w : SettleableWallet) → Step db (sweep_one min_amount w db).1
  reverses :
      (payout : PayoutRow) (attempts : ℕ) (reason : String)
      → Step db (reverse_payout payout attempts reason db).1
  opens :
      (merchant_id : ℕ) (currency : Currency)
      → Absent (db.uuid db.drawn) (ids db.wallets)
      → All (λ e. e.wallet_id ≢ db.uuid db.drawn) db.ledger_entries
      → Step db (create merchant_id currency db).1
  seeds : (password_hash : String) → IsFresh db → Step db (seed password_hash db).1
  elsewhere :
      (after : Db)
      → after.wallets ≡ db.wallets
      → after.ledger_entries ≡ db.ledger_entries
      → Step db after

-- What the sessions have done, one transaction after the other.
pub data Reach (db : Db) : Db → Type 0 where
  here : Reach db db
  next : {mid after : Db} → Reach db mid → Step mid after → Reach db after
