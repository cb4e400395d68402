-- ===== src/Idempotency/Replay.antt =====
-- src/middleware/idempotency.ts on a request, for each state of its key.
use Prim.Native.String.{String}
use text.Mathlib.Text.{◌==◌ as ◌=ₛ◌}
use text.Mathlib.TextPositions.{eq_refl}
use payment_apis.Prelude.{
  ℕ, suc, ◌≤◌, ◌<◌, ◌≡◌, refl, ◌∙◌, inl, inr, Bool, true, false, not, none, some, List, [], ◌∷◌,
  select, first, update, any, leb, ◌==◌, arith, Bool-cases,
}
use payment_apis.Errors.{app, idempotency_key_reuse, idempotency_in_progress}
use payment_apis.Db.{Db, IdempotencyRow, in_progress, ok, err, Exec}
use payment_apis.Idempotency.{
  Request, Response, is_key, insert_key, get, on_taken, claim, complete, release, persist,
  answer_existing, proceed, first_time, hash_request, with_header, with_key, idempotency,
  completed_row,
}

-- A found row is a taken key.
first-any :
    (p : IdempotencyRow → Bool) (rows : List IdempotencyRow) (row : IdempotencyRow)
    → first p rows ≡ some row
    → any p rows ≡ true
first-any p [] row e = cc
first-any p (r ∷ rows) row e = ground (arith, first-any p rows row)

-- An UPDATE that keeps the key, of the row that is found and of one that is not.
first-completed :
    (merchant_id : ℕ) (key : String) (status : ℕ) (body : String) (rows : List IdempotencyRow)
    (row : IdempotencyRow)
    → first (is_key merchant_id key) rows ≡ some row
    → first
        (is_key merchant_id key)
        (update (is_key merchant_id key) (completed_row status body) rows)
      ≡ some (completed_row status body row)
first-completed merchant_id key status body [] row e = cc
first-completed merchant_id key status body (r ∷ rows) row e =
    elim (Bool-cases (is_key merchant_id key r)) [
      | inl hit ↦ let found : r ≡ row = ground arith in rw hit (rw hit (rw found refl))
      | inr miss ↦
          rw (miss, miss) (first-completed merchant_id key status body rows row (rw miss at e))
    ]

first-update-none :
    (p : IdempotencyRow → Bool) (f : IdempotencyRow → IdempotencyRow) (rows : List IdempotencyRow)
    → first p rows ≡ none
    → first p (update p f rows) ≡ none
first-update-none p f [] e = refl
first-update-none p f (r ∷ rows) e = elim (Bool-cases (p r)) [
  | inl hit ↦ absurd (ground arith)
  | inr miss ↦ rw (miss, miss) (first-update-none p f rows (rw miss at e))
]

any-select :
    (p : IdempotencyRow → Bool) (rows : List IdempotencyRow)
    → any p (select (λ r. not (p r)) rows) ≡ false
any-select p [] = refl
any-select p (r ∷ rows) = ground (arith, any-select p rows)

module _ (sha256 : String → String) (req : Request) (key : String)
    (header : req.idempotency_key ≡ some key) (given_key : (key =ₛ "") ≡ false) where
  -- The row of a new claim, and the state after it.
  abbrev pub claim_row : Db → IdempotencyRow
  claim_row db = record {
    id = db.uuid db.drawn;
    merchant_id = req.merchant_id;
    key = key;
    request_hash = hash_request sha256 req;
    status = in_progress;
    response_status = none;
    response_body = none;
    created_at = db.now;
  }

  abbrev pub claimed : Db → Db
  claimed db = record db {
    drawn = suc db.drawn;
    idempotency_keys = claim_row db ∷ db.idempotency_keys;
  }

  -- The state that saves a response.
  abbrev pub saved_in : Response → Db → Db
  saved_in response mid = record mid {
    idempotency_keys =
        update (is_key req.merchant_id key) (completed_row response.status response.body)
          mid.idempotency_keys;
  }

  -- The middleware on a key that is free, of a merchant that is there: it claims it, runs the handler
  -- and persists what that answers.
  pub idempotency-new :
      (others : Db → Db) (handler : Exec Response) (db mid : Db) (response : Response)
      → any (is_key req.merchant_id key) db.idempotency_keys ≡ false
      → any (λ m. m.id == req.merchant_id) db.merchants ≡ true
      → handler (claimed db) ≡ (ok response, mid)
      → idempotency sha256 others req handler db ≡ persist req.merchant_id key response mid
  unfolding idempotency with_header with_key claim insert_key proceed first_time
  idempotency-new others handler db mid response free known ran =
      simp header (rw given_key (rw free (rw known (rw ran refl))))

  -- That answer is the response, whatever its status.
  pub idempotency-answer :
      (others : Db → Db) (handler : Exec Response) (db mid : Db) (response : Response)
      → any (is_key req.merchant_id key) db.idempotency_keys ≡ false
      → any (λ m. m.id == req.merchant_id) db.merchants ≡ true
      → handler (claimed db) ≡ (ok response, mid)
      → (idempotency sha256 others req handler db).0 ≡ ok response
  unfolding persist release complete
  idempotency-answer others handler db mid response free known ran =
      rw (idempotency-new others handler db mid response free known ran)
        (elim (Bool-cases (leb 500 response.status)) [
          | inl high ↦ rw high refl
          | inr low ↦ rw low refl
        ])

  -- On a key that is taken, whose row is still there at the SELECT.
  idempotency-taken :
      (others : Db → Db) (handler : Exec Response) (db : Db) (row : IdempotencyRow)
      → any (is_key req.merchant_id key) db.idempotency_keys ≡ true
      → first (is_key req.merchant_id key) (others db).idempotency_keys ≡ some row
      → idempotency sha256 others req handler db
        ≡ answer_existing row (hash_request sha256 req) (others db)
  unfolding idempotency with_header with_key claim insert_key on_taken get proceed
  idempotency-taken others handler db row taken found =
      simp header (rw given_key (rw taken (rw found refl)))

  -- A request with a new key, of a merchant that is there, whose handler leaves the key's row
  -- alone and answers below 500, gets that answer. The same request again gets the same answer,
  -- whatever its handler is, since that does not run, and changes nothing, while other sessions
  -- leave the key's row alone.
  pub replays_response :
      (others others' : Db → Db) (handler handler' : Exec Response) (db mid : Db)
      (response : Response)
      → any (is_key req.merchant_id key) db.idempotency_keys ≡ false
      → any (λ m. m.id == req.merchant_id) db.merchants ≡ true
      → handler (claimed db) ≡ (ok response, mid)
      → first (is_key req.merchant_id key) mid.idempotency_keys ≡ some (claim_row db)
      → response.status < 500
      → ((s : Db)
          → first (is_key req.merchant_id key) (others' s).idempotency_keys
            ≡ first (is_key req.merchant_id key) s.idempotency_keys)
      → let (r, after) = idempotency sha256 others req handler db in
        (r ≡ ok response)
        × (idempotency sha256 others' req handler' after ≡ (ok response, others' after))
  unfolding persist complete answer_existing
  replays_response others others' handler handler' db mid response free known ran kept below
        honest =
      let saved = completed_row response.status response.body (claim_row db) in
      let low : leb 500 response.status ≡ false = ground arith in
      let found =
        first-completed req.merchant_id key response.status response.body mid.idempotency_keys
          (claim_row db) kept in
      rw (idempotency-new others handler db mid response free known ran) (
        rw low (
          refl,
          rw
              (idempotency-taken others' handler' (saved_in response mid) saved
                (first-any (is_key req.merchant_id key) _ saved found) (honest _ ∙ found))
              (rw (eq_refl (hash_request sha256 req)) refl),
        ))

  -- If the handler of a request with a new key, of a merchant that is there, answers 500 or
  -- above, the request gets that answer, and the key is free again.
  pub frees_key :
      (others : Db → Db) (handler : Exec Response) (db mid : Db) (response : Response)
      → any (is_key req.merchant_id key) db.idempotency_keys ≡ false
      → any (λ m. m.id == req.merchant_id) db.merchants ≡ true
      → handler (claimed db) ≡ (ok response, mid)
      → 500 ≤ response.status
      → let (r, after) = idempotency sha256 others req handler db in
        (r ≡ ok response) × (any (is_key req.merchant_id key) after.idempotency_keys ≡ false)
  unfolding persist release
  frees_key others handler db mid response free known ran high =
      let over : leb 500 response.status ≡ true = ground arith in
      rw (idempotency-new others handler db mid response free known ran)
        (rw over (refl, any-select (is_key req.merchant_id key) mid.idempotency_keys))

  -- A request whose key is still in progress for the same parameters is refused, and its handler
  -- does not run; nothing but what the other sessions do is changed. The key's row is there at
  -- the INSERT and at the SELECT.
  pub refuses_in_flight :
      (others : Db → Db) (handler : Exec Response) (db : Db) (row : IdempotencyRow)
      → any (is_key req.merchant_id key) db.idempotency_keys ≡ true
      → first (is_key req.merchant_id key) (others db).idempotency_keys ≡ some row
      → row.request_hash ≡ hash_request sha256 req
      → row.status ≡ in_progress
      → idempotency sha256 others req handler db ≡ (err (app idempotency_in_progress), others db)
  unfolding answer_existing
  refuses_in_flight others handler db row taken found same running =
      rw (idempotency-taken others handler db row taken found)
        (simp same (rw (eq_refl (hash_request sha256 req)) (simp running refl)))

  -- A request whose key was used with other parameters is refused, in progress or not, and its
  -- handler does not run; nothing but what the other sessions do is changed. The key's row is
  -- there at the INSERT and at the SELECT.
  pub refuses_reuse :
      (others : Db → Db) (handler : Exec Response) (db : Db) (row : IdempotencyRow)
      → any (is_key req.merchant_id key) db.idempotency_keys ≡ true
      → first (is_key req.merchant_id key) (others db).idempotency_keys ≡ some row
      → (row.request_hash =ₛ hash_request sha256 req) ≡ false
      → idempotency sha256 others req handler db ≡ (err (app idempotency_key_reuse), others db)
  unfolding answer_existing
  refuses_reuse others handler db row taken found differs =
      rw (idempotency-taken others handler db row taken found) (rw differs refl)

  -- Where the key's row goes between the INSERT that it stops and the SELECT that looks for it, the
  -- handler runs with no claim; if it leaves no row for the key and answers below 500, the answer is
  -- sent and not saved: the key has no row after it either.
  pub runs_unclaimed :
      (others : Db → Db) (handler : Exec Response) (db mid : Db) (response : Response)
      → any (is_key req.merchant_id key) db.idempotency_keys ≡ true
      → first (is_key req.merchant_id key) (others db).idempotency_keys ≡ none
      → handler (others db) ≡ (ok response, mid)
      → first (is_key req.merchant_id key) mid.idempotency_keys ≡ none
      → response.status < 500
      → let (r, after) = idempotency sha256 others req handler db in
        (r ≡ ok response) × (first (is_key req.merchant_id key) after.idempotency_keys ≡ none)
  unfolding idempotency with_header with_key claim insert_key on_taken get proceed first_time
      persist complete
  runs_unclaimed others handler db mid response taken gone ran unsaved below =
      let low : leb 500 response.status ≡ false = ground arith in
      simp header (
        rw given_key (
          rw taken (
            rw gone (
              rw ran (
                rw low (
                  refl,
                  first-update-none (is_key req.merchant_id key) _ mid.idempotency_keys unsaved,
                ))))))

-- Saving the answer, or freeing the key, leaves both tables alone.
pub persist-tables :
    (merchant_id : ℕ) (key : String) (response : Response) (mid : Db)
    → (after : Db) × (persist merchant_id key response mid ≡ (ok response, after))
      × (after.wallets ≡ mid.wallets)
      × (after.ledger_entries ≡ mid.ledger_entries)
unfolding persist complete release
persist-tables merchant_id key response mid = elim (Bool-cases (leb 500 response.status)) [
  | inl high ↦ rw high (_, refl, refl, refl)
  | inr low ↦ rw low (_, refl, refl, refl)
]
