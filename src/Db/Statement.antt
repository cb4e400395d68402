-- ===== src/Db/Statement.antt =====
-- A statement on an Executor, and `withTransaction` of src/db.ts. Outside a transaction each
-- statement commits by itself, so the state comes back after a throw too.
use payment_apis.Prelude.{
  ℕ, suc, ◌≡◌, refl, ◌⊎◌, inl, inr, arith, Bool, Option, none, some, List, [], ◌∷◌, if◌then◌else◌,
}
use payment_apis.Errors.{AppError, Error, app, db_error, unique_violation}
use payment_apis.Db.Rows.{Db}

-- The result of a call that returns nothing.
abbrev pub Void : Type 0
Void = Unit {0}

pub data Result (A : Type 0) : Type 0 where
  ok : A → Result A
  err : Error → Result A

abbrev pub Exec : Type 0 → Type 0
Exec A = Db → Result A × Db

module _ {A : Type 0} where
  abbrev pub pure : A → Exec A
  pure a db = (ok a, db)

  abbrev pub raise : Error → Exec A
  raise e db = (err e, db)

  abbrev pub gets : (Db → A) → Exec A
  gets f db = (ok (f db), db)

  -- `if (!x) throw e`
  abbrev pub or_throw : Option A → AppError → Exec A
  or_throw none e = raise (app e)
  or_throw (some a) e = pure a

  -- The value of a statement that may fail, and the change that it makes.
  abbrev pub run : Result A → (A → Db → Db) → Exec Void
  run (ok a) f db = (ok tt, f a db)
  run (err e) f db = (err e, db)

  -- A computed result, which touches no table.
  abbrev pub lift : Result A → Exec A
  lift r db = (r, db)

abbrev pub modify : (Db → Db) → Exec Void
modify f db = (ok tt, f db)

abbrev pub throw_if : Bool → Error → Exec Void
throw_if b e db = (if b then err e else ok tt, db)

abbrev pub resume : {A B : Type 0} → (A → Exec B) → Result A × Db → Result B × Db
resume f (ok a, db) = f a db
resume f (err e, db) = (err e, db)

infixl 5 ◌>>=◌ ◌>>◌
abbrev pub ◌>>=◌ : {A B : Type 0} → Exec A → (A → Exec B) → Exec B
◌>>=◌ m f db = resume f (m db)

abbrev pub ◌>>◌ : {B : Type 0} → Exec Void → Exec B → Exec B
m >> k = m >>= λ _. k

-- `try { … } catch (err) { … }` round one statement
abbrev rethrow : {A : Type 0} → (Error → Error) → Result A × Db → Result A × Db
rethrow f (ok a, after) = (ok a, after)
rethrow f (err e, after) = (err (f e), after)

abbrev pub catch : {A : Type 0} → Exec A → (Error → Error) → Exec A
catch m f db = rethrow f (m db)

-- `try { … } catch (err) { … }` whose handler runs statements of its own
abbrev pub handle : {A : Type 0} → (Error → Exec A) → Result A × Db → Result A × Db
handle f (ok a, after) = (ok a, after)
handle f (err e, after) = f e after

abbrev pub recover : {A : Type 0} → Exec A → (Error → Exec A) → Exec A
recover m f db = handle f (m db)

-- `if (err?.code === "23505") throw e; throw err;`
abbrev pub on_unique : AppError → Error → Error
on_unique e (db_error unique_violation) = app e
on_unique e other = other

-- `gen_random_uuid()`, the DEFAULT of every id column.
abbrev pub gen_random_uuid : Exec ℕ
gen_random_uuid db = (ok (db.uuid db.drawn), record db { drawn = suc db.drawn })

-- COMMIT what the callback did, or ROLLBACK to what was there and throw on.
abbrev pub settle : {A : Type 0} → Db → Result A × Db → Result A × Db
settle before (ok a, after) = (ok a, after)
settle before (err e, after) = (err e, before)

unfoldable pub with_transaction : {A : Type 0} → Exec A → Exec A
with_transaction fn db = settle db (fn db)

abbrev pub bind_result : {A B : Type 0} → Result A → (A → Result B) → Result B
bind_result (ok a) f = f a
bind_result (err e) f = err e

-- An UPDATE whose CHECK constraints may refuse a row: all rows that pass the test, or none.
abbrev pub try_update : {A : Type 0} → (A → Bool) → (A → Result A) → List A → Result (List A)
try_update p f [] = ok []
try_update p f (x ∷ xs) =
    bind_result (if p x then f x else ok x) λ y. bind_result (try_update p f xs) λ ys. ok (y ∷ ys)

-- To split on a statement's result and keep the equation.
pub Result-cases :
    {A : Type 0} (r : Result A) → ((a : A) × (r ≡ ok a)) ⊎ ((e : Error) × (r ≡ err e))
Result-cases (ok a) = inl (a, refl)
Result-cases (err e) = inr (e, refl)

-- A transaction has the state from before, or the one that its body left when it returned.
pub with_transaction-keeps {ℓ} :
    {A : Type 0} (P : Db → Type ℓ) (fn : Exec A) (db : Db)
    → P db
    → ((a : A) (after : Db) → fn db ≡ (ok a, after) → P after)
    → P (with_transaction fn db).1
unfolding with_transaction
with_transaction-keeps {A} P fn db before keeps = go (fn db) keeps
  where
    go :
        (r : Result A × Db)
        → ((a : A) (after : Db) → r ≡ (ok a, after) → P after)
        → P (settle db r).1
    go (ok a, after) k = k a after refl
    go (err e, after) k = before

-- Inversion of a transaction that committed.
pub with_transaction-eq-ok :
    {A : Type 0} (fn : Exec A) (db : Db) (a : A) (after : Db)
    → with_transaction fn db ≡ (ok a, after)
    → fn db ≡ (ok a, after)
unfolding with_transaction
with_transaction-eq-ok fn db a after e = ground arith

-- A transaction that throws has changed nothing.
pub with_transaction-eq-err :
    {A : Type 0} (fn : Exec A) (db : Db) (e : Error) (after : Db)
    → with_transaction fn db ≡ (err e, after)
    → after ≡ db
unfolding with_transaction
with_transaction-eq-err fn db e after h = ground arith

-- Inversion of a sequence that returned: its first part did, and the rest did from there.
pub >>=-eq-ok {ℓ} :
    {A B : Type 0} {C : Type ℓ} (m : Exec A) (f : A → Exec B) (db : Db) (b : B) (after : Db)
    → (m >>= f) db ≡ (ok b, after)
    → ((a : A) (mid : Db) → m db ≡ (ok a, mid) → f a mid ≡ (ok b, after) → C)
    → C
>>=-eq-ok {A} {B} {C} m f db b after h k = go (m db) refl h
  where
    go : (r : Result A × Db) → m db ≡ r → resume f r ≡ (ok b, after) → C
    go (ok a, mid) e rest = k a mid e rest
    go (err x, mid) e rest = absurd (ground arith)

-- Names the parts of a fact in what follows from it.
pub given {ℓ κ} : {A : Type ℓ} {C : Type κ} → A → (A → C) → C
given a f = f a

-- What a first part and, from any state it leaves, a second part keep, the sequence keeps.
pub >>=-keeps {ℓ} :
    {A B : Type 0} (P : Db → Type ℓ) (m : Exec A) (f : A → Exec B) (db : Db)
    → P (m db).1
    → ((a : A) (s : Db) → P s → P (f a s).1)
    → P ((m >>= f) db).1
>>=-keeps {A} {B} P m f db first rest = go (m db) first
  where
    go : (r : Result A × Db) → P r.1 → P (resume f r).1
    go (ok a, s) p = rest a s p
    go (err e, s) p = p
