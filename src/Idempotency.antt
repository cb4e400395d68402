-- ===== src/Idempotency.antt =====
-- src/idempotency/idempotency.repository.ts and src/middleware/idempotency.ts: the keys by which a
-- repeated request gets the saved response. The body of a response stands for a
-- JSON value, as the text that has it: the column is JSONB, which keeps the value and not the order of its keys.
pub mod Replay
use Prim.Native.String.{String, ◌++◌}
use text.Mathlib.Text.{◌==◌ as ◌=ₛ◌}
use payment_apis.Prelude.{
  ℕ, Bool, true, false, not, ◌&&◌, Option, none, some, ◌∷◌, select, first, update, any, leb, ◌==◌,
  if◌then◌else◌,
}
use payment_apis.Errors.{
  Error, app, idempotency_key_required, idempotency_key_reuse, idempotency_in_progress, db_error,
  unique_violation, foreign_key_violation,
}
use payment_apis.Db.{
  Db, IdempotencyRow, KeyStatus, in_progress, completed, Void, Exec, pure, raise, gets, modify,
  throw_if, recover, gen_random_uuid, ◌>>=◌, ◌>>◌,
}

-- What the middleware reads of a request that was authenticated and validated.
pub record Request : Type 0 where
  pub merchant_id : ℕ
  pub method : String
  pub original_url : String
  pub body : String
  pub idempotency_key : Option String

pub record Response : Type 0 where
  pub status : ℕ
  pub body : String

-- `WHERE merchant_id = $1 AND key = $2`
abbrev pub is_key : ℕ → String → IdempotencyRow → Bool
is_key merchant_id key row = (row.merchant_id == merchant_id) && (row.key =ₛ key)

-- The INSERT of `claim`: UNIQUE (merchant_id, key), and the reference to merchants.
unfoldable pub insert_key : ℕ → String → String → Exec Void
insert_key merchant_id key request_hash = do
  db ← gets (λ db. db)
  throw_if (any (is_key merchant_id key) db.idempotency_keys) (db_error unique_violation)
  throw_if (not (any (λ m. m.id == merchant_id) db.merchants)) (db_error foreign_key_violation)
  id ← gen_random_uuid
  let row : IdempotencyRow = record {
    id = id;
    merchant_id = merchant_id;
    key = key;
    request_hash = request_hash;
    status = in_progress;
    response_status = none;
    response_body = none;
    created_at = db.now;
  }
  modify (λ db. record db { idempotency_keys = row ∷ db.idempotency_keys })

pub get : ℕ → String → Exec (Option IdempotencyRow)
get merchant_id key = gets (λ db. first (is_key merchant_id key) db.idempotency_keys)

pub record Claim : Type 0 where
  pub created : Bool
  pub existing : Option IdempotencyRow

-- The `catch` of `claim`. Other sessions may commit before its SELECT.
pub on_taken : (Db → Db) → ℕ → String → Error → Exec Claim
on_taken others merchant_id key (db_error unique_violation) = do
  modify others
  existing ← get merchant_id key
  pure (record { created = false; existing = existing })
on_taken others merchant_id key e = raise e

unfoldable pub claim : (Db → Db) → ℕ → String → String → Exec Claim
claim others merchant_id key request_hash =
    recover
      (insert_key merchant_id key request_hash >> pure (record { created = true; existing = none }))
      (on_taken others merchant_id key)

abbrev pub completed_row : ℕ → String → IdempotencyRow → IdempotencyRow
completed_row response_status response_body row = record row {
  status = completed;
  response_status = some response_status;
  response_body = some response_body;
}

unfoldable pub complete : ℕ → String → ℕ → String → Exec Void
complete merchant_id key response_status response_body = modify (λ db. record db {
  idempotency_keys =
      update (is_key merchant_id key) (completed_row response_status response_body)
        db.idempotency_keys;
})

pub release : ℕ → String → Exec Void
release merchant_id key = modify (λ db. record db {
  idempotency_keys = select (λ row. not (is_key merchant_id key row)) db.idempotency_keys;
})

-- The replaced `res.json`: it saves the response, or frees the key, and then sends.
unfoldable pub persist : ℕ → String → Response → Exec Response
persist merchant_id key response = do
  if leb 500 response.status
      then release merchant_id key
      else complete merchant_id key response.status response.body
  pure response

-- `res.status(existing.response_status ?? 200).json(existing.response_body)`
abbrev or_ok : Option ℕ → ℕ
or_ok none = 200
or_ok (some status) = status

abbrev or_null : Option String → String
or_null none = "null"
or_null (some body) = body

abbrev pub saved_response : IdempotencyRow → Response
saved_response row = record { status = or_ok row.response_status; body = or_null row.response_body }

abbrev pub is_in_progress : KeyStatus → Bool
is_in_progress in_progress = true
is_in_progress completed = false

pub answer_existing : IdempotencyRow → String → Exec Response
answer_existing existing request_hash =
    if not (existing.request_hash =ₛ request_hash)
    then raise (app idempotency_key_reuse)
    else if is_in_progress existing.status
    then raise (app idempotency_in_progress)
    else pure (saved_response existing)

-- `if (!created && existing) { … }`, and the first-time path after it. `handler` is what `next()` runs:
-- it ends with the response that reaches `res.json`.
unfoldable pub first_time : ℕ → String → Exec Response → Exec Response
first_time merchant_id key handler = do response ← handler; persist merchant_id key response

abbrev answer : String → Exec Response → Bool → Option IdempotencyRow → Exec Response
answer request_hash run_handler false (some existing) = answer_existing existing request_hash
answer request_hash run_handler false none = run_handler
answer request_hash run_handler true existing = run_handler

unfoldable pub proceed : ℕ → String → String → Exec Response → Claim → Exec Response
proceed merchant_id key request_hash handler claimed =
    answer request_hash (first_time merchant_id key handler) claimed.created claimed.existing

-- node:crypto's SHA-256, in hexadecimal digits, is a parameter.
module _ (sha256 : String → String) where
  unfoldable pub hash_request : Request → String
  hash_request req = sha256 (req.method ++ " " ++ req.original_url ++ " " ++ req.body)

  -- The middleware after `if (!key || typeof key !== "string")`.
  unfoldable pub with_key : (Db → Db) → Request → String → Exec Response → Exec Response
  with_key others req key handler = do
    claimed ← claim others req.merchant_id key (hash_request req)
    proceed req.merchant_id key (hash_request req) handler claimed

  -- `if (!key || typeof key !== "string") throw …`
  unfoldable pub with_header : (Db → Db) → Request → Exec Response → Option String → Exec Response
  with_header others req handler none = raise (app idempotency_key_required)
  with_header others req handler (some key) =
      if key =ₛ "" then raise (app idempotency_key_required) else with_key others req key handler

  unfoldable pub idempotency : (Db → Db) → Request → Exec Response → Exec Response
  idempotency others req handler = with_header others req handler req.idempotency_key
