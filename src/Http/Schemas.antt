-- ===== src/Http/Schemas.antt =====
-- The schemas of src/*/*.dto.ts. zod, and the JSON value that express.json makes of a body, are parameters; the
-- texts of a refusal are zod's too.
use Prim.Native.String.{String}
use text.Mathlib.Text.{◌==◌ as ◌=ₛ◌}
use payment_apis.Prelude.{
  ℕ, zero, suc, ◌≡◌, refl, ◌<◌, arith, Bool, true, false, not, ◌&&◌, Option, none, some, List, leb,
  if◌then◌else◌,
}
use payment_apis.Prelude.Int.{ℤ, pos, negsuc}
use payment_apis.Db.{Currency, ngn, usd}
use payment_apis.Auth.{RegisterDto, LoginDto}
use payment_apis.Transfer.{CreateTransferDto}
use payment_apis.Payment.{CreatePaymentIntentDto}
use payment_apis.Http.Controllers.{RegisterPayoutAccountDto}
use payment_apis.Http.Routes.{SafeParse, success, failure, Schemas}

-- What zod tests of a value. `uuid` is what PostgreSQL reads of a text that `z.string().uuid()` admits: letters of
-- both cases stand for the same digits.
pub record Zod : Type 1 where
  pub Json : Type 0
  pub json : String → Json
  pub property : String → Json → Option Json
  pub string : Json → Option String
  pub integer : Json → Option ℤ
  pub uuid : String → Option ℕ
  pub is_email : String → Bool
  pub is_url : String → Bool
  pub length : String → ℕ
  pub codes : String → List ℕ
  pub field_errors : String → String

infixl 5 ◌>>=◌
abbrev pub ◌>>=◌ : {A B : Type 0} → Option A → (A → Option B) → Option B
none >>= f = none
some a >>= f = f a

abbrev pub checked : {A : Type 0} → Bool → A → Option A
checked true a = some a
checked false a = none

-- `.positive()`
abbrev pub positive : ℤ → Option ℕ
positive (pos zero) = none
positive (pos (suc n)) = some (suc n)
positive (negsuc n) = none

-- `z.enum(SUPPORTED_CURRENCIES)`
pub currency_of : String → Option Currency
currency_of s = if s =ₛ "NGN" then some ngn else if s =ₛ "USD" then some usd else none

module _ (zod : Zod) where
  -- A property of the object, with what its schema makes of it.
  abbrev pub required : {A : Type 0} → (zod.Json → Option A) → String → zod.Json → Option A
  required schema name value = zod.property name value >>= schema

  -- `.optional()`
  abbrev present : {A : Type 0} → (zod.Json → Option A) → Option zod.Json → Option (Option A)
  present schema none = some none
  present schema (some value) = schema value >>= λ a. some (some a)

  abbrev pub optional : {A : Type 0} → (zod.Json → Option A) → String → zod.Json → Option (Option A)
  optional schema name value = present schema (zod.property name value)

  -- `z.string().min(low).max(high)`, `z.string().email()`, `z.string().url()`, `z.string().uuid()`
  abbrev pub text_where : (String → Bool) → zod.Json → Option String
  text_where test value = do s ← zod.string value; checked (test s) s

  abbrev pub between : ℕ → ℕ → String → Bool
  between low high s = leb low (zod.length s) && leb (zod.length s) high

  abbrev pub uuid_text : zod.Json → Option (String × ℕ)
  uuid_text value = do s ← zod.string value; id ← zod.uuid s; some (s, id)

  -- `z.number().int().positive()`
  abbrev pub amount : zod.Json → Option ℕ
  amount value = zod.integer value >>= positive

  abbrev pub currency : zod.Json → Option Currency
  currency value = zod.string value >>= currency_of

  -- `registerSchema`
  pub register_schema : zod.Json → Option RegisterDto
  register_schema value = do
    email ← required (text_where zod.is_email) "email" value
    password ← required (text_where (λ s. leb 8 (zod.length s))) "password" value
    some (record { email = email; password = password })

  -- `loginSchema`
  pub login_schema : zod.Json → Option LoginDto
  login_schema value = do
    email ← required (text_where zod.is_email) "email" value
    password ← required (text_where (λ s. leb 1 (zod.length s))) "password" value
    some (record { email = email; password = password })

  -- `createWalletSchema`
  pub create_wallet_schema : zod.Json → Option Currency
  create_wallet_schema value = required currency "currency" value

  -- `createTransferSchema`: `.refine` compares the two texts.
  unfoldable pub create_transfer_schema : zod.Json → Option CreateTransferDto
  create_transfer_schema value = do
    from ← required uuid_text "fromWalletId" value
    to ← required uuid_text "toWalletId" value
    n ← required amount "amount" value
    checked (not (from.0 =ₛ to.0))
        (record { from_wallet_id = from.1; to_wallet_id = to.1; amount = n })

  -- `createPaymentIntentSchema`
  pub create_payment_intent_schema : zod.Json → Option CreatePaymentIntentDto
  create_payment_intent_schema value = do
    n ← required amount "amount" value
    c ← required currency "currency" value
    reference ← optional (text_where (between 0 255)) "customerReference" value
    some (record { amount = n; currency = c; customer_reference = reference })

  -- `registerPayoutAccountSchema`
  pub register_payout_account_schema : zod.Json → Option RegisterPayoutAccountDto
  register_payout_account_schema value = do
    c ← required currency "currency" value
    bank ← required (text_where (between 1 255)) "bankName" value
    account ← required (text_where (between 6 34)) "accountNumber" value
    some (record { currency = c; bank_name = bank; account_number = zod.codes account })

  -- `registerEndpointSchema`
  pub register_endpoint_schema : zod.Json → Option String
  register_endpoint_schema value = required (text_where zod.is_url) "url" value

  -- `schema.safeParse(req.body)`
  abbrev pub result_of : {A : Type 0} → String → Option A → SafeParse A
  result_of body none = failure (zod.field_errors body)
  result_of body (some a) = success a

  abbrev pub safe_parse : {A : Type 0} → (zod.Json → Option A) → String → SafeParse A
  safe_parse schema body = result_of body (schema (zod.json body))

  abbrev pub declared : Schemas
  declared = record {
    register = safe_parse register_schema;
    login = safe_parse login_schema;
    create_wallet = safe_parse create_wallet_schema;
    create_transfer = safe_parse create_transfer_schema;
    create_payment_intent = safe_parse create_payment_intent_schema;
    register_payout_account = safe_parse register_payout_account_schema;
    register_endpoint = safe_parse register_endpoint_schema;
  }

-- A body for a transfer from a wallet to itself: the text of an UUID, another text of the same, and an amount.
pub record IsRespelled (zod : Zod) (value : zod.Json) (id amount : ℕ) : Type 0 where
  pub from_value : zod.Json
  pub to_value : zod.Json
  pub number : zod.Json
  pub from_text : String
  pub to_text : String
  pub has_from : zod.property "fromWalletId" value ≡ some from_value
  pub has_to : zod.property "toWalletId" value ≡ some to_value
  pub has_amount : zod.property "amount" value ≡ some number
  pub from_string : zod.string from_value ≡ some from_text
  pub to_string : zod.string to_value ≡ some to_text
  pub from_uuid : zod.uuid from_text ≡ some id
  pub to_uuid : zod.uuid to_text ≡ some id
  pub apart : (from_text =ₛ to_text) ≡ false
  pub integer : zod.integer number ≡ some (pos amount)
  pub above_zero : 0 < amount

positive-some : (n : ℕ) → 0 < n → positive (pos n) ≡ some n
positive-some zero h = absurd (omega (arith, h))
positive-some (suc n) h = refl

-- The schema takes it.
pub create_transfer_schema-IsRespelled :
    (zod : Zod) (value : zod.Json) (id amount : ℕ)
    → IsRespelled zod value id amount
    → create_transfer_schema zod value
      ≡ some (record { from_wallet_id = id; to_wallet_id = id; amount = amount })
unfolding create_transfer_schema
create_transfer_schema-IsRespelled zod value id amount b = rw b.has_from (
    rw b.has_to (
      rw b.has_amount (
        rw b.from_string (
          rw b.to_string (
            rw b.from_uuid (
              rw b.to_uuid
                (rw b.integer (rw (positive-some amount b.above_zero) (rw b.apart refl)))))))))
