-- ===== src/Wallet/Deltas.antt =====
-- What the balance updates of src/wallets/wallet.repository.ts do to the table: which rows keep
-- what, each wallet's balance against a function of its id, and the sum of all balances.
use payment_apis.Prelude.{
  ℕ, ◌+◌, ◌≡◌, refl, subst, inl, inr, Bool, false, List, [], ◌∷◌, map, arith, All, Absent, Distinct,
  first, count, some, ◌==◌, Bool-cases,
}
use payment_apis.Prelude.Int.{ℤ, pos, ◌+ℤ◌, int_laws}
use payment_apis.Db.{WalletRow, ok}
use payment_apis.Db.Updates.{Updated}
use payment_apis.Wallet.{has_id, has_version, add_delta, add_delta_bump}

-- The new version of a row whose balance moved by `delta`.
pub record Delta (delta : ℤ) (w w' : WalletRow) : Type 0 where
  pub moved : pos w'.balance ≡ pos w.balance +ℤ delta
  pub same_id : w'.id ≡ w.id
  pub same_merchant : w'.merchant_id ≡ w.merchant_id
  pub same_currency : w'.currency ≡ w.currency

pub add_delta-Delta :
    (now : ℕ) (delta : ℤ) (w w' : WalletRow) → add_delta now delta w ≡ ok w' → Delta delta w w'
unfolding add_delta
add_delta-Delta now delta w w' e = ground arith

pub add_delta_bump-Delta :
    (now : ℕ) (delta : ℤ) (w w' : WalletRow) → add_delta_bump now delta w ≡ ok w' → Delta delta w w'
unfolding add_delta_bump
add_delta_bump-Delta now delta w w' e = ground arith

-- The ids of the table, in its order.
abbrev pub ids : List WalletRow → List ℕ
ids = map (λ w. w.id)

abbrev pub total : List WalletRow → ℕ
total [] = 0
total (w ∷ ws) = w.balance + total ws

-- Each balance is what the function says of the wallet's id.
abbrev pub Agrees : (ℕ → ℤ) → List WalletRow → Type 0
Agrees f = All (λ w. pos w.balance ≡ f w.id)

-- The test picks exactly the rows of this id.
abbrev pub Targets : (WalletRow → Bool) → ℕ → List WalletRow → Type 0
Targets p id = All (λ w. p w ≡ (w.id == id))

pub has_id-Targets : (id : ℕ) (ws : List WalletRow) → Targets (has_id id) id ws
has_id-Targets id [] = tt
has_id-Targets id (w ∷ ws) = (refl, has_id-Targets id ws)

module _ (p : WalletRow → Bool) (delta : ℤ) where
  pub Updated-ids : (xs ys : List WalletRow) → Updated p (Delta delta) xs ys → ids ys ≡ ids xs
  Updated-ids [] [] u = refl
  Updated-ids [] (y ∷ ys) u = elim u [ ]
  Updated-ids (x ∷ xs) [] u = elim u [ ]
  Updated-ids (x ∷ xs) (y ∷ ys) (c, u) = ground (arith, Updated-ids xs ys u)

  -- The function moves with the balances.
  pub Updated-Agrees :
      (id : ℕ) (f g : ℕ → ℤ) (xs ys : List WalletRow)
      → g id ≡ f id +ℤ delta
      → ((j : ℕ) → (j == id) ≡ false → g j ≡ f j)
      → Targets p id xs
      → Updated p (Delta delta) xs ys
      → Agrees f xs
      → Agrees g ys
  Updated-Agrees id f g [] [] here other t u a = tt
  Updated-Agrees id f g [] (y ∷ ys) here other t u a = elim u [ ]
  Updated-Agrees id f g (x ∷ xs) [] here other t u a = elim u [ ]
  Updated-Agrees id f g (x ∷ xs) (y ∷ ys) here other t (c, u) a =
      (ground (arith, other x.id), Updated-Agrees id f g xs ys here other t.1 u a.1)

  -- A table without the id keeps its sum.
  pub Updated-total-Absent :
      (id : ℕ) (xs ys : List WalletRow)
      → Targets p id xs
      → Absent id (ids xs)
      → Updated p (Delta delta) xs ys
      → total ys ≡ total xs
  Updated-total-Absent id [] [] t a u = refl
  Updated-total-Absent id [] (y ∷ ys) t a u = elim u [ ]
  Updated-total-Absent id (x ∷ xs) [] t a u = elim u [ ]
  Updated-total-Absent id (x ∷ xs) (y ∷ ys) t a (c, u) =
      ground (arith, Updated-total-Absent id xs ys t.1 a.1 u)

  -- Where the id stands for one wallet, the sum moves by the delta.
  pub Updated-total :
      (id : ℕ) (w : WalletRow) (xs ys : List WalletRow)
      → Targets p id xs
      → Distinct (ids xs)
      → first (has_id id) xs ≡ some w
      → Updated p (Delta delta) xs ys
      → pos (total ys) ≡ pos (total xs) +ℤ delta
  Updated-total id w [] [] t d e u = cc
  Updated-total id w [] (y ∷ ys) t d e u = elim u [ ]
  Updated-total id w (x ∷ xs) [] t d e u = elim u [ ]
  Updated-total id w (x ∷ xs) (y ∷ ys) t d e (c, u) = elim (Bool-cases (x.id == id)) [
    | inl hit ↦
        let same : x.id ≡ id = ground arith in
        grind (
          int_laws,
          Updated-total-Absent id xs ys t.1 (subst (λ (j : ℕ). Absent j (ids xs)) same d.0) u,
        )
    | inr miss ↦ grind (int_laws, Updated-total id w xs ys t.1 d.1 (rw miss at e) u)
  ]

  -- Looking a wallet up by its id: the one that the test picks is the moved one, any other is the same.
  pub Updated-other :
      (id j : ℕ) (xs ys : List WalletRow)
      → (j == id) ≡ false
      → Targets p id xs
      → Updated p (Delta delta) xs ys
      → first (has_id j) ys ≡ first (has_id j) xs
  Updated-other id j [] [] ne t u = refl
  Updated-other id j [] (y ∷ ys) ne t u = elim u [ ]
  Updated-other id j (x ∷ xs) [] ne t u = elim u [ ]
  Updated-other id j (x ∷ xs) (y ∷ ys) ne t (c, u) =
      ground (arith, Updated-other id j xs ys ne t.1 u)

  pub Updated-self :
      (id : ℕ) (w : WalletRow) (xs ys : List WalletRow)
      → Targets p id xs
      → first (has_id id) xs ≡ some w
      → Updated p (Delta delta) xs ys
      → (w' : WalletRow) × (first (has_id id) ys ≡ some w') × Delta delta w w'
  Updated-self id w [] [] t e u = cc
  Updated-self id w [] (y ∷ ys) t e u = elim u [ ]
  Updated-self id w (x ∷ xs) [] t e u = elim u [ ]
  Updated-self id w (x ∷ xs) (y ∷ ys) t e (c, u) = elim (Bool-cases (x.id == id)) [
    | inl hit ↦ (y, ground arith, ground arith)
    | inr miss ↦
        let (w', found, moved) = Updated-self id w xs ys t.1 (rw miss at e) u in
        (w', ground arith, moved)
  ]

Absent-Targets :
    (id version : ℕ) (ws : List WalletRow)
    → Absent id (ids ws)
    → Targets (has_version id version) id ws
Absent-Targets id version [] a = tt
Absent-Targets id version (w ∷ ws) a = (ground arith, Absent-Targets id version ws a.1)

pub Absent-count :
    (id version : ℕ) (ws : List WalletRow)
    → Absent id (ids ws)
    → count (has_version id version) ws ≡ 0
Absent-count id version [] a = refl
Absent-count id version (w ∷ ws) a = ground (arith, Absent-count id version ws a.1)

-- Where ids are distinct and the conditional update met one row, it picked the rows of that id.
pub has_version-Targets :
    (id version : ℕ) (ws : List WalletRow)
    → Distinct (ids ws)
    → count (has_version id version) ws ≡ 1
    → Targets (has_version id version) id ws
has_version-Targets id version [] d n = tt
has_version-Targets id version (w ∷ ws) d n = elim (Bool-cases (w.id == id)) [
  | inl hit ↦
      let same : w.id ≡ id = ground arith in
      let gone = subst (λ (j : ℕ). Absent j (ids ws)) same d.0 in
      (ground (arith, Absent-count id version ws gone), Absent-Targets id version ws gone)
  | inr miss ↦ (ground arith, has_version-Targets id version ws d.1 (ground arith))
]

-- Where the conditional update met one row, there is a wallet of that id.
pub first-has_version :
    (id version : ℕ) (ws : List WalletRow)
    → count (has_version id version) ws ≡ 1
    → (w : WalletRow) × (first (has_id id) ws ≡ some w)
first-has_version id version [] n = absurd (omega arith)
first-has_version id version (w ∷ ws) n = elim (Bool-cases (w.id == id)) [
  | inl hit ↦ (w, rw hit)
  | inr miss ↦ rw miss (first-has_version id version ws (ground arith))
]
