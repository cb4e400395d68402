-- ===== src/Attack/Keyless.antt =====
-- Requests of src/attack.ts: a transfer without an Idempotency-Key.
use Prim.Native.String.{String, ◌++◌ as ◌++ₛ◌}
use payment_apis.Prelude.{
  ℕ, zero, suc, ◌≡◌, ◌≢◌, refl, ap, none, some, List, [], ◌∷◌, arith, inl, inr, ◌⊎◌, Option, length,
  count, ◌==◌,
}
use payment_apis.Errors.{
  AppError, Error, app, db_error, plain, status_code, validation, idempotency_key_required,
}
use payment_apis.Db.{Db, ok, Result-cases}
use payment_apis.Auth.{authenticate}
use payment_apis.Idempotency.{idempotency, with_header}
use payment_apis.Http.{Server, error_handler, respond, post_transfer}
use payment_apis.Http.Routes.{
  Environment, SafeParse, success, failure, validate_body, validated, transfers, post_transfers,
  authenticated, transfer_router, serve,
}
use payment_apis.Attack.{Texts, amount, request, fire}

pub SafeParse-cases :
    {A : Type 0} (p : SafeParse A)
    → ((a : A) × (p ≡ success a)) ⊎ ((fields : String) × (p ≡ failure fields))
SafeParse-cases (success a) = inl (a, refl)
SafeParse-cases (failure fields) = inr (fields, refl)

-- No error is answered as a success.
status-ne-201 : (e : AppError) → status_code e ≢ 201
unfolding status_code
status-ne-201 AppError.email_already_exists h = absurd (omega (arith, h))
status-ne-201 _ h = absurd (omega (arith, h))

error-ne-201 : (server : Server) (e : Error) → (error_handler server e).status ≢ 201
unfolding error_handler
error-ne-201 server (app e) = status-ne-201 e
error-ne-201 server (db_error e) = λ h. absurd (omega (arith, h))
error-ne-201 server (plain text) = λ h. absurd (omega (arith, h))

module _ (env : Environment) where
  -- Whoever asks, with whatever body: the answer is an error, and nothing changes.
  pub keyless :
      (authorization : Option String) (body : String) (db : Db)
      → (e : Error) × (serve env authorization (transfers (post_transfers none body)) db
          ≡ (ok (error_handler env.server e), db))
  unfolding serve transfer_router authenticated validated validate_body respond post_transfer
      idempotency with_header
  keyless authorization body db =
      elim (Result-cases (authenticate env.libraries env.clock authorization)) [
        | inr (e, refused) ↦ (e, rw refused refl)
        | inl (who, known) ↦ elim (SafeParse-cases (env.schemas.create_transfer body)) [
          | inl (dto, parses) ↦ (app idempotency_key_required, rw known (rw parses refl))
          | inr (fields, fails) ↦ (app (validation fields), rw known (rw fails refl))
        ]
      ]

  -- All requests of the script.
  pub fire-keyless :
      (texts : Texts) (n : ℕ) (token : String) (from to : ℕ) (db : Db)
      → (statuses : List ℕ) × (fire env texts n token from to db ≡ (ok statuses, db))
        × (length statuses ≡ n)
        × (count (λ s. s == 201) statuses ≡ 0)
  unfolding fire request
  fire-keyless texts zero token from to db = ([], refl, refl, refl)
  fire-keyless texts (suc n) token from to db =
      let (e, answered) =
        keyless (some ("Bearer " ++ₛ token)) (texts.transfer_body from to amount) db in
      let (statuses, fired, long, none_ok) = fire-keyless texts n token from to db in
      let failed = error-ne-201 env.server e in
      (
        (error_handler env.server e).status ∷ statuses,
        rw answered (rw fired refl),
        ap (λ k. suc k) long,
        ground (arith, failed, none_ok),
      )
