-- ===== src/Prelude/Every.antt =====
-- Facts about all elements of a list, and about any of them.
use Prim.Native.Nat.{ℕ, zero, suc}
use mathlib.Core.Path.{◌≡◌, refl}
use mathlib.Core.Logic.{inl, inr}
use mathlib.Core.Bool.{Bool, true, false, ◌||◌}
use mathlib.Core.List.{List, [], ◌∷◌, ◌++◌, map}
use native.Mathlib.Omega.{arith}
use payment_apis.Prelude.Tests.{leb, Bool-cases}
use payment_apis.Prelude.Lists.{All, any, update, take, select, insert_by, order_by}

module _ {A : Type 0} where
  pub any-append : (p : A → Bool) (xs ys : List A) → any p (xs ++ ys) ≡ (any p xs || any p ys)
  any-append p [] ys = refl
  any-append p (x ∷ xs) ys = ground (arith, any-append p xs ys)

  pub All-update :
      (P Q : A → Type 0) (p : A → Bool) (f : A → A) (xs : List A)
      → ((x : A) → p x ≡ true → P x → Q (f x))
      → ((x : A) → p x ≡ false → P x → Q x)
      → All P xs
      → All Q (update p f xs)
  All-update P Q p f [] hit miss all = tt
  All-update P Q p f (x ∷ xs) hit miss all = elim (Bool-cases (p x)) [
    | inl e ↦ rw e (hit x e all.0, All-update P Q p f xs hit miss all.1)
    | inr e ↦ rw e (miss x e all.0, All-update P Q p f xs hit miss all.1)
  ]

  pub All-imp : (P Q : A → Type 0) (xs : List A) → ((x : A) → P x → Q x) → All P xs → All Q xs
  All-imp P Q [] f all = tt
  All-imp P Q (x ∷ xs) f all = (f x all.0, All-imp P Q xs f all.1)

  pub All-append : (P : A → Type 0) (xs ys : List A) → All P xs → All P ys → All P (xs ++ ys)
  All-append P [] ys a b = b
  All-append P (x ∷ xs) ys a b = (a.0, All-append P xs ys a.1 b)

  pub All-front : (P : A → Type 0) (xs ys : List A) → All P (xs ++ ys) → All P xs
  All-front P [] ys a = tt
  All-front P (x ∷ xs) ys a = (a.0, All-front P xs ys a.1)

  pub All-back : (P : A → Type 0) (xs ys : List A) → All P (xs ++ ys) → All P ys
  All-back P [] ys a = a
  All-back P (x ∷ xs) ys a = All-back P xs ys a.1

  pub All-take : (P : A → Type 0) (n : ℕ) (xs : List A) → All P xs → All P (take n xs)
  All-take P zero xs a = tt
  All-take P (suc n) [] a = tt
  All-take P (suc n) (x ∷ xs) a = (a.0, All-take P n xs a.1)

  All-insert_by :
      (P : A → Type 0) (key : A → ℕ) (x : A) (ys : List A)
      → P x
      → All P ys
      → All P (insert_by key x ys)
  All-insert_by P key x [] here all = (here, tt)
  All-insert_by P key x (y ∷ ys) here all =
      let later = All-insert_by P key x ys here all.1 in
      elim (Bool-cases (leb (key x) (key y))) [
        | inl before ↦ rw before (here, all)
        | inr after ↦ rw after (all.0, later)
      ]

  pub All-order_by :
      (P : A → Type 0) (key : A → ℕ) (xs : List A) → All P xs → All P (order_by key xs)
  All-order_by P key [] all = tt
  All-order_by P key (x ∷ xs) all =
      All-insert_by P key x (order_by key xs) all.0 (All-order_by P key xs all.1)

  -- What all rows that pass have, the selected rows have.
  pub All-select :
      (P : A → Type 0) (p : A → Bool) (xs : List A)
      → All (λ x. p x ≡ true → P x) xs
      → All P (select p xs)
  All-select P p [] all = tt
  All-select P p (x ∷ xs) all = elim (Bool-cases (p x)) [
    | inl hit ↦ rw hit (all.0 hit, All-select P p xs all.1)
    | inr miss ↦ rw miss (All-select P p xs all.1)
  ]

  pub All-map :
      {B : Type 0} (P : B → Type 0) (f : A → B) (xs : List A)
      → All (λ x. P (f x)) xs
      → All P (map f xs)
  All-map P f [] all = tt
  All-map P f (x ∷ xs) all = (all.0, All-map P f xs all.1)
