-- ===== src/Http/Posting.antt =====
-- POST /transfers from the request to the accounts: authentication, the schema, the idempotency guard and the
-- service, composed.
use Prim.Native.String.{String}
use text.Mathlib.Text.{◌==◌ as ◌=ₛ◌}
use payment_apis.Prelude.{
  ℕ, ap, first, List, ◌≤◌, ◌≡◌, ◌≢◌, refl, ◌∙◌, true, false, Option, some, any, All, Distinct, ◌==◌,
  arith,
}
use payment_apis.Errors.{Error, app, concurrency_conflict, status_code}
use payment_apis.Db.{Db, WalletRow, Result, ok, err}
use payment_apis.Wallet.{HasRoom, has_id}
use payment_apis.Wallet.Deltas.{ids}
use payment_apis.Auth.{AuthTokenPayload, authenticate}
use payment_apis.Transfer.{CreateTransferDto, TransferResult, transfer}
use payment_apis.Transfer.Outcome.{quiet}
use payment_apis.Transfer.Accounts.{Accounts, accounts, seen, pay, Refines}
use payment_apis.Transfer.Refinement.{transfer-Refines}
use payment_apis.Transfer.Self.{self_transfer}
use payment_apis.Idempotency.{Request, Response, is_key, idempotency}
use payment_apis.Idempotency.Replay.{claimed, idempotency-new, persist-tables}
use payment_apis.Http.{Server, transfer_body, error_handler, respond, create, post_transfer}
use payment_apis.Http.Routes.{
  Environment, success, validate_body, validated, transfers, post_transfers, transfer_request,
  authenticated, transfer_router, serve,
}
use payment_apis.Http.Schemas.{
  Zod, declared, result_of, IsRespelled, create_transfer_schema-IsRespelled,
}

-- What the client is told of the transfer, and what it finds.
abbrev pub IsAnswered : Server → Result TransferResult → Db → Response → Db → Type 0
IsAnswered server (ok result) mid response after =
    (response ≡ record { status = 201; body = server.stringify (transfer_body result) })
    × (after.wallets ≡ mid.wallets)
    × (after.ledger_entries ≡ mid.ledger_entries)
IsAnswered server (err e) mid response after =
    (response ≡ error_handler server e)
    × (after.wallets ≡ mid.wallets)
    × (after.ledger_entries ≡ mid.ledger_entries)

created :
    (server : Server) (merchant_id : ℕ) (dto : CreateTransferDto) (r : Result TransferResult)
    (db mid : Db)
    → transfer quiet merchant_id dto db ≡ (r, mid)
    → (response : Response) × (respond server (create server quiet merchant_id dto) db
        ≡ (ok response, mid))
      × IsAnswered server r mid response mid
unfolding respond create
created server merchant_id dto (ok result) db mid e = (_, rw e refl, (refl, refl, refl))
created server merchant_id dto (err x) db mid e = (_, rw e refl, (refl, refl, refl))

moved :
    (server : Server) (r : Result TransferResult) (mid after : Db) (response : Response)
    → after.wallets ≡ mid.wallets
    → after.ledger_entries ≡ mid.ledger_entries
    → IsAnswered server r mid response mid
    → IsAnswered server r mid response after
moved server (ok result) mid after response wallets entries (told, _, _) = (told, wallets, entries)
moved server (err e) mid after response wallets entries (told, _, _) = (told, wallets, entries)

-- The same environment, while no other session moves money.
abbrev pub calm : Environment → Environment
calm env = record env { during_transfer = quiet }

module _ (env : Environment) (authorization : Option String) (key body : String)
    (dto : CreateTransferDto) (who : AuthTokenPayload) (db : Db) (nonempty : (key =ₛ "") ≡ false)
    (known : authenticate env.libraries env.clock authorization ≡ ok who)
    (parses : env.schemas.create_transfer body ≡ success dto)
    (free : any (is_key who.sub key) db.idempotency_keys ≡ false)
    (member : any (λ m. m.id == who.sub) db.merchants ≡ true) where
  abbrev request : Request
  request = transfer_request env who.sub (some key) dto

  abbrev start : Db
  start = claimed env.server.sha256 request key refl nonempty db

  guarded :
      (r : Result TransferResult) (mid : Db)
      → transfer quiet who.sub dto start ≡ (r, mid)
      → (response : Response) × (after : Db) × (idempotency env.server.sha256 env.before_select
            request
            (respond env.server (create env.server quiet who.sub dto))
            db
          ≡ (ok response, after))
        × IsAnswered env.server r mid response after
  guarded r mid e =
      let (response, ran, told) = created env.server who.sub dto r start mid e in
      let (after, saved, wallets, entries) = persist-tables who.sub key response mid in
      (
        response,
        after,
        idempotency-new env.server.sha256 request key refl nonempty env.before_select
              (respond env.server (create env.server quiet who.sub dto)) db mid response free member
              ran
            ∙ saved,
        moved env.server r mid after response wallets entries told,
      )

  pub served :
      (r : Result TransferResult) (mid : Db)
      → transfer quiet who.sub dto start ≡ (r, mid)
      → (response : Response) × (after : Db) × (serve
            (calm env)
            authorization
            (transfers (post_transfers (some key) body))
            db
          ≡ (ok response, after))
        × IsAnswered env.server r mid response after
  unfolding serve transfer_router authenticated validated validate_body post_transfer respond
  served r mid e =
      let (response, after, ended, told) = guarded r mid e in
      (response, after, rw known (rw parses (rw ended refl)), told)

-- The answer and the accounts that a payment promises: 201 and the new balances, or its error and nothing moved.
abbrev pub IsPromised : Server → Result Accounts → Accounts → Response → Db → Type 0
IsPromised server (ok a) before response after =
    (response.status ≡ 201) × ((id : ℕ) → accounts after id ≡ a id)
IsPromised server (err e) before response after =
    (response ≡ error_handler server e) × ((id : ℕ) → accounts after id ≡ before id)

err-injective : {A : Type 0} (x y : Error) → ◌≡◌ {A = Result A} (err x) (err y) → x ≡ y
err-injective x y h = cc

same_wallets : (s t : Db) → s.wallets ≡ t.wallets → (id : ℕ) → accounts s id ≡ accounts t id
same_wallets s t e id = ap (λ (ws : List WalletRow). seen (first (has_id id) ws)) e

promised :
    (server : Server) (p : Result Accounts) (r : Result TransferResult) (before mid after : Db)
    (response : Response)
    → Refines p before (r, mid)
    → IsAnswered server r mid response after
    → IsPromised server p (accounts before) response after
promised server (ok a) (ok result) before mid after response ((_, _), moves)
      (told, wallets, entries) =
    (ap (λ (x : Response). x.status) told, λ id. same_wallets after mid wallets id ∙ moves id)
promised server (ok a) (err e) before mid after response ((result, h), moves) told =
    absurd (ground arith)
promised server (err e) (ok result) before mid after response (h, same) told = absurd (ground arith)
promised server (err e) (err x) before mid after response (h, same) (told, wallets, entries) = (
  told ∙ ap (error_handler server) (err-injective x e h),
  λ id. same_wallets after mid wallets id ∙ ap (λ (s : Db). accounts s id) same,
)

-- POST /transfers with a valid token, a new key and a body that the schema accepts, of two different wallets, with
-- nobody interfering, where ids are distinct, balances are in the BIGINT range and versions have an INTEGER after them: the answer is 201 and each account has what the payment between accounts promises, or
-- the answer is the error handler's for the error that it promises and no account has changed.
pub post_transfer_pays :
    (env : Environment) (authorization : Option String) (key body : String)
    (dto : CreateTransferDto) (who : AuthTokenPayload) (db : Db)
    → (key =ₛ "") ≡ false
    → authenticate env.libraries env.clock authorization ≡ ok who
    → env.schemas.create_transfer body ≡ success dto
    → any (is_key who.sub key) db.idempotency_keys ≡ false
    → any (λ m. m.id == who.sub) db.merchants ≡ true
    → Distinct (ids db.wallets)
    → All HasRoom db.wallets
    → dto.to_wallet_id ≢ dto.from_wallet_id
    → (response : Response) × (after : Db) × (serve
          (calm env)
          authorization
          (transfers (post_transfers (some key) body))
          db
        ≡ (ok response, after))
      × IsPromised env.server (pay who.sub dto (accounts db)) (accounts db) response after
post_transfer_pays env authorization key body dto who db nonempty known parses free member distinct
      bounded different =
    let s = start env authorization key body dto who db nonempty known parses free member in
    let outcome = transfer quiet who.sub dto s in
    let (response, after, ended, told) =
      served env authorization key body dto who db nonempty known parses free member outcome.0
        outcome.1 refl in
    (
      response,
      after,
      ended,
      promised env.server (pay who.sub dto (accounts db)) outcome.0 s outcome.1 after response
          (transfer-Refines who.sub dto s distinct bounded different) told,
    )

-- The schema compares texts, and two texts that differ in the case of their letters may be the same UUID. A body
-- with two different texts of the UUID of one wallet and a positive amount is accepted: POST /transfers, with a
-- valid token of the wallet's owner and a new key, of an amount that the wallet has, with nobody interfering, answers
-- with the 409 of a concurrency conflict, and leaves all wallets and the ledger as they are. The wallet's id is
-- its own, and its balance and next version are in the ranges of their types.
pub post_transfer_self :
    (zod : Zod) (env : Environment) (authorization : Option String) (key body : String)
    (id amount : ℕ) (w : WalletRow) (who : AuthTokenPayload) (db : Db)
    → (key =ₛ "") ≡ false
    → authenticate env.libraries env.clock authorization ≡ ok who
    → IsRespelled zod (zod.json body) id amount
    → any (is_key who.sub key) db.idempotency_keys ≡ false
    → any (λ m. m.id == who.sub) db.merchants ≡ true
    → Distinct (ids db.wallets)
    → first (has_id id) db.wallets ≡ some w
    → w.merchant_id ≡ who.sub
    → amount ≤ w.balance
    → HasRoom w
    → (response : Response) × (after : Db) × (serve
          (calm (record env { schemas = declared zod }))
          authorization
          (transfers (post_transfers (some key) body))
          db
        ≡ (ok response, after))
      × (response ≡ error_handler env.server (app concurrency_conflict))
      × (response.status ≡ 409)
      × (after.wallets ≡ db.wallets)
      × (after.ledger_entries ≡ db.ledger_entries)
unfolding error_handler status_code
post_transfer_self zod env authorization key body id amount w who db nonempty known respelled free
      member distinct held owned enough room =
    let strict = record env { schemas = declared zod } in
    let dto : CreateTransferDto = record {
      from_wallet_id = id;
      to_wallet_id = id;
      amount = amount;
    } in
    let parses =
      ap (result_of zod body)
        (create_transfer_schema-IsRespelled zod (zod.json body) id amount respelled) in
    let s = start strict authorization key body dto who db nonempty known parses free member in
    let thrown =
      self_transfer w who.sub dto s refl held owned respelled.above_zero enough distinct room in
    let (response, after, ended, (told, wallets, entries)) =
      served strict authorization key body dto who db nonempty known parses free member
        (err (app concurrency_conflict)) s thrown in
    (response, after, ended, told, ap (λ (x : Response). x.status) told, wallets, entries)
