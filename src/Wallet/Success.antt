-- ===== src/Wallet/Success.antt =====
-- When a balance update of src/wallets/wallet.repository.ts succeeds, and what the table is then.
use payment_apis.Prelude.{
  ℕ, suc, ◌+◌, ◌-◌, ◌≤◌, ◌<◌, ◌≡◌, refl, subst, inl, inr, Bool, true, false, List, [], ◌∷◌, arith,
  All, Absent, Distinct, first, count, update, some, ◌==◌, Bool-cases,
}
use payment_apis.Prelude.Int.{pos, neg, ◌+ℤ◌}
use payment_apis.Errors.{Error}
use payment_apis.Wallet.Updates.{with_wallets}
use payment_apis.Db.{Db, WalletRow, Result, ok, err, try_update, bigint_end, integer_end}
use payment_apis.Wallet.{HasRoom, has_id, has_version, add_delta_bump, add_delta, apply_delta}
use payment_apis.Wallet.Deltas.{ids, Absent-count}

-- An update that no picked row refuses is a plain update.
pub try_update-ok :
    {A : Type 0} (p : A → Bool) (f : A → Result A) (g : A → A) (xs : List A)
    → All (λ x. p x ≡ true → f x ≡ ok (g x)) xs
    → try_update p f xs ≡ ok (update p g xs)
try_update-ok p f g [] a = refl
try_update-ok p f g (x ∷ xs) a = elim (Bool-cases (p x)) [
  | inl hit ↦ rw hit (rw (a.0 hit) (rw (try_update-ok p f g xs a.1)))
  | inr miss ↦ rw miss (rw (try_update-ok p f g xs a.1))
]

abbrev pub debit_row : ℕ → ℕ → WalletRow → WalletRow
debit_row now amount w = record w {
  balance = w.balance - amount;
  version = suc w.version;
  updated_at = now;
}

abbrev pub credit_row : ℕ → ℕ → WalletRow → WalletRow
credit_row now amount w = record w {
  balance = w.balance + amount;
  version = suc w.version;
  updated_at = now;
}

pub add_delta_bump-debit :
    (now amount : ℕ) (w : WalletRow)
    → amount ≤ w.balance
    → HasRoom w
    → add_delta_bump now (neg amount) w ≡ ok (debit_row now amount w)
unfolding add_delta_bump ◌+ℤ◌
add_delta_bump-debit now amount w h (small, newer) = ground arith

pub add_delta_bump-credit :
    (now amount : ℕ) (w : WalletRow)
    → w.balance + amount < bigint_end
    → suc w.version < integer_end
    → add_delta_bump now (pos amount) w ≡ ok (credit_row now amount w)
unfolding add_delta_bump ◌+ℤ◌
add_delta_bump-credit now amount w h newer = ground arith

-- In a table of distinct ids, all that a test on the id can pick is the wallet found.
module _ (p : WalletRow → Bool) (id : ℕ) (sound : (x : WalletRow) → p x ≡ true → x.id ≡ id) where
  Absent-All :
      (P : WalletRow → Type 0) (ws : List WalletRow)
      → Absent id (ids ws)
      → All (λ x. p x ≡ true → P x) ws
  Absent-All P [] a = tt
  Absent-All P (w ∷ ws) a = (λ h. absurd (a.0 (sound w h)), Absent-All P ws a.1)

  pub picked-All :
      (P : WalletRow → Type 0) (w : WalletRow) (ws : List WalletRow)
      → Distinct (ids ws)
      → first (has_id id) ws ≡ some w
      → P w
      → All (λ x. p x ≡ true → P x) ws
  picked-All P w [] d e q = tt
  picked-All P w (x ∷ xs) d e q = elim (Bool-cases (x.id == id)) [
    | inl hit ↦
        let same : x.id ≡ id = ground arith in
        let found : w ≡ x = ground arith in
        (λ _. subst P found q, Absent-All P xs (subst (λ (j : ℕ). Absent j (ids xs)) same d.0))
    | inr miss ↦ (λ h. absurd (ground (arith, sound x h)), picked-All P w xs d.1 (rw miss at e) q)
  ]

  -- The one row picked refuses, and so does the statement.
  pub try_update-err :
      (f : WalletRow → Result WalletRow) (x : Error) (w : WalletRow) (ws : List WalletRow)
      → p w ≡ true
      → f w ≡ err x
      → first (has_id id) ws ≡ some w
      → try_update p f ws ≡ err x
  try_update-err f x w [] hit refuse e = cc
  try_update-err f x w (y ∷ ys) hit refuse e = elim (Bool-cases (y.id == id)) [
    | inl here ↦ let found : y ≡ w = ground arith in rw found (rw hit (rw refuse))
    | inr miss ↦ elim (Bool-cases (p y)) [
      | inl picked ↦ absurd (ground (arith, sound y picked))
      | inr skipped ↦ rw skipped (rw (try_update-err f x w ys hit refuse (rw miss at e)))
    ]
  ]

pub has_version-id : (id version : ℕ) (x : WalletRow) → has_version id version x ≡ true → x.id ≡ id
has_version-id id version x h = ground arith

pub has_id-id : (id : ℕ) (x : WalletRow) → has_id id x ≡ true → x.id ≡ id
has_id-id id x h = ground arith

-- The version that a read has just returned is met by one row.
pub count-found :
    (w : WalletRow) (id : ℕ) (ws : List WalletRow)
    → Distinct (ids ws)
    → first (has_id id) ws ≡ some w
    → count (has_version id w.version) ws ≡ 1
count-found w id [] d e = cc
count-found w id (x ∷ xs) d e = elim (Bool-cases (x.id == id)) [
  | inl hit ↦
      let same : x.id ≡ id = ground arith in
      ground (arith, Absent-count id w.version xs (subst (λ (j : ℕ). Absent j (ids xs)) same d.0))
  | inr miss ↦ ground (arith, count-found w id xs d.1 (rw miss at e))
]

-- An update keeps the ids, and moves the wallet that is looked up by another id not at all.
pub update-ids :
    (p : WalletRow → Bool) (g : WalletRow → WalletRow) (ws : List WalletRow)
    → ((w : WalletRow) → (g w).id ≡ w.id)
    → ids (update p g ws) ≡ ids ws
update-ids p g [] same = refl
update-ids p g (w ∷ ws) same = ground (arith, same w, update-ids p g ws same)

pub first-update_other :
    (id version j : ℕ) (g : WalletRow → WalletRow) (ws : List WalletRow)
    → ((w : WalletRow) → (g w).id ≡ w.id)
    → (j == id) ≡ false
    → first (has_id j) (update (has_version id version) g ws) ≡ first (has_id j) ws
first-update_other id version j g [] same ne = refl
first-update_other id version j g (w ∷ ws) same ne =
    ground (arith, same w, first-update_other id version j g ws same ne)

pub first-update_self :
    (id : ℕ) (g : WalletRow → WalletRow) (w : WalletRow) (ws : List WalletRow)
    → ((x : WalletRow) → (g x).id ≡ x.id)
    → first (has_id id) ws ≡ some w
    → first (has_id id) (update (has_version id w.version) g ws) ≡ some (g w)
first-update_self id g w [] same e = cc
first-update_self id g w (x ∷ xs) same e = elim (Bool-cases (x.id == id)) [
  | inl hit ↦ let found : x ≡ w = ground arith in rw found (ground (arith, same w))
  | inr miss ↦ ground (arith, same x, first-update_self id g w xs same (rw miss at e))
]

-- The balance update by `applyDelta`, of what the wallet has.
abbrev pub spend_row : ℕ → ℕ → WalletRow → WalletRow
spend_row now spent w = record w { balance = w.balance - spent; updated_at = now }

add_delta-spend :
    (now spent : ℕ) (w : WalletRow)
    → spent ≤ w.balance
    → w.balance < bigint_end
    → add_delta now (neg spent) w ≡ ok (spend_row now spent w)
unfolding add_delta ◌+ℤ◌
add_delta-spend now spent w h k = ground arith

pub apply_delta-spend :
    (db : Db) (w : WalletRow) (id spent : ℕ)
    → Distinct (ids db.wallets)
    → first (has_id id) db.wallets ≡ some w
    → spent ≤ w.balance
    → w.balance < bigint_end
    → apply_delta id (neg spent) db
      ≡ (ok tt, with_wallets (update (has_id id) (spend_row db.now spent) db.wallets) db)
unfolding apply_delta
apply_delta-spend db w id spent d e enough small = rw (
    try_update-ok (has_id id) (add_delta db.now (neg spent)) (spend_row db.now spent) db.wallets (
      picked-All (has_id id) id (has_id-id id)
        (λ x. add_delta db.now (neg spent) x ≡ ok (spend_row db.now spent x)) w db.wallets d e
        (add_delta-spend db.now spent w enough small)))

pub first-spent :
    (id now spent : ℕ) (w : WalletRow) (ws : List WalletRow)
    → first (has_id id) ws ≡ some w
    → first (has_id id) (update (has_id id) (spend_row now spent) ws) ≡ some (spend_row now spent w)
first-spent id now spent w [] e = cc
first-spent id now spent w (x ∷ xs) e = elim (Bool-cases (x.id == id)) [
  | inl hit ↦ let found : x ≡ w = ground arith in rw found (ground arith)
  | inr miss ↦ rw (miss, miss) (first-spent id now spent w xs (rw miss at e))
]

-- The same for a credit.
abbrev pub receive_row : ℕ → ℕ → WalletRow → WalletRow
receive_row now amount w = record w { balance = w.balance + amount; updated_at = now }

add_delta-receive :
    (now amount : ℕ) (w : WalletRow)
    → w.balance + amount < bigint_end
    → add_delta now (pos amount) w ≡ ok (receive_row now amount w)
unfolding add_delta ◌+ℤ◌
add_delta-receive now amount w h = ground arith

pub try_update-receive :
    (now amount : ℕ) (w : WalletRow) (id : ℕ) (ws : List WalletRow)
    → Distinct (ids ws)
    → first (has_id id) ws ≡ some w
    → w.balance + amount < bigint_end
    → try_update (has_id id) (add_delta now (pos amount)) ws
      ≡ ok (update (has_id id) (receive_row now amount) ws)
try_update-receive now amount w id ws d e room =
    try_update-ok (has_id id) (add_delta now (pos amount)) (receive_row now amount) ws (
      picked-All (has_id id) id (has_id-id id)
        (λ x. add_delta now (pos amount) x ≡ ok (receive_row now amount x)) w ws d e
        (add_delta-receive now amount w room))

pub first-received :
    (id now amount : ℕ) (w : WalletRow) (ws : List WalletRow)
    → first (has_id id) ws ≡ some w
    → first (has_id id) (update (has_id id) (receive_row now amount) ws)
      ≡ some (receive_row now amount w)
first-received id now amount w [] e = cc
first-received id now amount w (x ∷ xs) e = elim (Bool-cases (x.id == id)) [
  | inl hit ↦ let found : x ≡ w = ground arith in rw found (ground arith)
  | inr miss ↦ rw (miss, miss) (first-received id now amount w xs (rw miss at e))
]
