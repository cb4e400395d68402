-- ===== src/Merchant.antt =====
-- src/merchants/merchant.repository.ts: the merchants table.
use Prim.Native.String.{String}
use text.Mathlib.Text.{◌==◌ as ◌=ₛ◌}
use payment_apis.Prelude.{ℕ, Bool, Option, ◌∷◌, first, any, ◌==◌}
use payment_apis.Errors.{AppError, db_error, unique_violation}
use payment_apis.Db.{
  MerchantRow, Exec, pure, gets, modify, throw_if, catch, on_unique, gen_random_uuid, ◌>>=◌, ◌>>◌,
}

-- `WHERE email = $1`
abbrev pub has_email : String → MerchantRow → Bool
has_email email row = row.email =ₛ email

-- `WHERE id = $1`
abbrev pub has_id : ℕ → MerchantRow → Bool
has_id id row = row.id == id

-- The INSERT: UNIQUE (email).
unfoldable pub insert_row : String → String → Exec MerchantRow
insert_row email password_hash = do
  db ← gets (λ db. db)
  throw_if (any (has_email email) db.merchants) (db_error unique_violation)
  id ← gen_random_uuid
  let row : MerchantRow = record {
    id = id;
    email = email;
    password_hash = password_hash;
    created_at = db.now;
    updated_at = db.now;
  }
  modify (λ db. record db { merchants = row ∷ db.merchants })
  pure row

-- `merchantRepository.insert`
unfoldable pub insert : String → String → Exec MerchantRow
insert email password_hash =
    catch (insert_row email password_hash) (on_unique AppError.email_already_exists)

unfoldable pub find_by_email : String → Exec (Option MerchantRow)
find_by_email email = gets (λ db. first (has_email email) db.merchants)

unfoldable pub find_by_id : ℕ → Exec (Option MerchantRow)
find_by_id id = gets (λ db. first (has_id id) db.merchants)
