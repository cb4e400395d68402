-- ===== src/Http/Retry.antt =====
-- A client's retry of POST /transfers.
use Prim.Native.String.{String}
use text.Mathlib.Text.{◌==◌ as ◌=ₛ◌}
use text.Mathlib.TextPositions.{eq_refl}
use payment_apis.Prelude.{
  ℕ, ◌<◌, ◌≡◌, refl, subst, sym, ◌∙◌, ==-refl, false, true, some, first, any, ◌==◌, arith,
}
use payment_apis.Db.{Db, Result, ok, err, Exec, >>=-keeps}
use payment_apis.Transfer.{CreateTransferDto, Others, transfer}
use payment_apis.Transfer.Keeps.{transfer-keeps}
use payment_apis.Idempotency.{Request, Response, is_key, idempotency}
use payment_apis.Idempotency.Replay.{claim_row, claimed, replays_response, idempotency-answer}
use payment_apis.Http.{Server, error_handler, respond, create, post_transfer}

module _ (server : Server) where
  -- A handler under the error handler always answers.
  respond-answers :
      (handler : Exec Response) (db : Db)
      → (response : Response) × (respond server handler db ≡ (ok response, (handler db).1))
  unfolding respond
  respond-answers handler db = go (handler db) refl
    where
      go :
          (r : Result Response × Db)
          → handler db ≡ r
          → (response : Response) × (respond server handler db ≡ (ok response, r.1))
      go (ok a, s) e = (a, rw e refl)
      go (err x, s) e = (error_handler server x, rw e refl)

  respond-ok :
      (handler : Exec Response) (db : Db) (response : Response)
      → (handler db).0 ≡ ok response
      → respond server handler db ≡ (ok response, (handler db).1)
  unfolding respond
  respond-ok handler db response e = go (handler db) refl e
    where
      go :
          (r : Result Response × Db)
          → handler db ≡ r
          → r.0 ≡ ok response
          → respond server handler db ≡ (ok response, r.1)
      go (ok a, s) e h = rw e (ground arith)
      go (err x, s) e h = cc

  pub respond-run :
      (handler : Exec Response) (db : Db) (response : Response) (after : Db)
      → handler db ≡ (ok response, after)
      → respond server handler db ≡ (ok response, after)
  unfolding respond
  respond-run handler db response after e = rw e refl

  create-keeps :
      (P : Db → Type 0) (others : ℕ → Others) (merchant_id : ℕ) (dto : CreateTransferDto) (db : Db)
      → P (transfer others merchant_id dto db).1
      → P (create server others merchant_id dto db).1
  unfolding create
  create-keeps P others merchant_id dto db p =
      >>=-keeps P (transfer others merchant_id dto) _ db p (λ r s q. q)

answer-injective :
    (a b : Response) (s t : Db)
    → ◌≡◌ {A = Result Response × Db} (ok a, s) (ok b, t)
    → (a ≡ b) × (s ≡ t)
answer-injective a b s t e = ground arith

-- The rows that others' commits leave alone: those of one key.
abbrev pub KeepsKey : ℕ → String → (Db → Db) → Type 0
KeepsKey merchant_id key change =
    (s : Db)
    → first (is_key merchant_id key) (change s).idempotency_keys
      ≡ first (is_key merchant_id key) s.idempotency_keys

-- The guard under the error handler, for any handler that answers.
module _ (server : Server) (req : Request) (key : String) (header : req.idempotency_key ≡ some key)
    (nonempty : (key =ₛ "") ≡ false) where
  answers_once :
      (before_select before_select' : Db → Db) (handler handler' : Exec Response)
      (db mid after : Db) (answer response : Response)
      → any (is_key req.merchant_id key) db.idempotency_keys ≡ false
      → any (λ m. m.id == req.merchant_id) db.merchants ≡ true
      → handler (claimed server.sha256 req key header nonempty db) ≡ (ok answer, mid)
      → first (is_key req.merchant_id key) mid.idempotency_keys
        ≡ some (claim_row server.sha256 req key header nonempty db)
      → KeepsKey req.merchant_id key before_select'
      → respond server (idempotency server.sha256 before_select req handler) db
        ≡ (ok response, after)
      → response.status < 500
      → respond server (idempotency server.sha256 before_select' req handler') after
        ≡ (ok response, before_select' after)
  answers_once before_select before_select' handler handler' db mid after answer response free known
        ran kept honest first_time below =
      let guarded = idempotency server.sha256 before_select req handler in
      let ended : ◌≡◌ {A = Result Response × Db} (ok answer, (guarded db).1) (ok response, after) =
        sym (
          respond-ok server guarded db answer (
            idempotency-answer server.sha256 req key header nonempty before_select handler db mid
              answer free known ran))
        ∙ first_time in
      let (same, left) = answer-injective answer response (guarded db).1 after ended in
      let (r, again) =
        replays_response server.sha256 req key header nonempty before_select before_select' handler
          handler' db mid answer free known ran kept
          (subst (λ (a : Response). a.status < 500) (sym same) below) honest in
      let second = idempotency server.sha256 before_select' req handler' in
      subst (λ (s : Db). respond server second s ≡ (ok response, before_select' s)) left
        (subst
          (λ (a : Response).
            respond server second (guarded db).1 ≡ (ok a, before_select' (guarded db).1))
          same
          (respond-run server second (guarded db).1 answer (before_select' (guarded db).1) again))

-- A merchant who repeats POST /transfers with the same key after an answer below 500 gets the
-- same answer, and the repetition changes nothing: money moves by the first request alone, also
-- if the answer was that its transfer failed or was a conflict to retry. The key was new at the
-- first request, the merchant is there, and other sessions leave the key's row alone.
pub post_transfer_once :
    (server : Server) (before_select before_select' : Db → Db) (others others' : ℕ → Others)
    (req : Request) (key : String) (dto dto' : CreateTransferDto) (db after : Db)
    (response : Response)
    → req.idempotency_key ≡ some key
    → (key =ₛ "") ≡ false
    → any (is_key req.merchant_id key) db.idempotency_keys ≡ false
    → any (λ m. m.id == req.merchant_id) db.merchants ≡ true
    → ((n : ℕ) → KeepsKey req.merchant_id key (others n).before_second_read)
    → ((n : ℕ) → KeepsKey req.merchant_id key (others n).before_writes)
    → KeepsKey req.merchant_id key before_select'
    → post_transfer server before_select others req dto db ≡ (ok response, after)
    → response.status < 500
    → post_transfer server before_select' others' req dto' after
      ≡ (ok response, before_select' after)
unfolding post_transfer
post_transfer_once server before_select before_select' others others' req key dto dto' db after
      response header nonempty free known reads writes honest first_time below =
    let m = req.merchant_id in
    let start = claimed server.sha256 req key header nonempty db in
    let row = claim_row server.sha256 req key header nonempty db in
    let (answer, ran) = respond-answers server (create server others m dto) start in
    let Kept : Db → Type 0 = λ s. first (is_key m key) s.idempotency_keys ≡ some row in
    answers_once server req key header nonempty before_select before_select'
      (respond server (create server others m dto)) (respond server (create server others' m dto'))
      db _ after answer response free known ran
      (create-keeps server Kept others m dto start (
        transfer-keeps Kept (λ from to amount ws s p. p) others (λ n s p. reads n s ∙ p)
          (λ n s p. writes n s ∙ p) m dto start (rw (==-refl m) (rw (eq_refl key) refl))))
      honest first_time below
