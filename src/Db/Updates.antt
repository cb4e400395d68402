-- ===== src/Db/Updates.antt =====
-- What an UPDATE that may refuse a row has done, row by row.
use payment_apis.Prelude.{
  ◌≡◌, refl, ◌⊎◌, inl, inr, Bool, true, false, List, [], ◌∷◌, arith, subst, if◌then◌else◌,
  Bool-cases,
}
use payment_apis.Db.Statement.{Result, ok, err, bind_result, try_update}

-- Inversion of a row that was updated, and of the rows after it.
pub bind_result-eq-ok :
    {A B : Type 0} (m : Result A) (f : A → Result B) (b : B)
    → bind_result m f ≡ ok b
    → (a : A) × (m ≡ ok a) × (f a ≡ ok b)
bind_result-eq-ok (ok a) f b h = (a, refl, h)
bind_result-eq-ok (err e) f b h = cc

ok-injective : {A : Type 0} (a b : A) → ok a ≡ ok b → a ≡ b
ok-injective a b h = cc

module _ {A : Type 0} (p : A → Bool) (R : A → A → Type 0) where
  -- A row that passes the test stands in the relation to its new version; any other is the same.
  abbrev pub Changed : A → A → Type 0
  Changed x y = ((p x ≡ true) × R x y) ⊎ ((p x ≡ false) × (y ≡ x))

  abbrev pub Updated : List A → List A → Type 0
  Updated [] [] = Unit
  Updated (x ∷ xs) (y ∷ ys) = Changed x y × Updated xs ys
  Updated [] (y ∷ ys) = ⊥
  Updated (x ∷ xs) [] = ⊥

  Changed-row :
      (f : A → Result A) (x y : A)
      → ((x y : A) → f x ≡ ok y → R x y)
      → (if p x then f x else ok x) ≡ ok y
      → Changed x y
  Changed-row f x y keeps e = elim (Bool-cases (p x)) [
    | inl hit ↦ inl (hit, keeps x y (rw hit at e))
    | inr miss ↦ inr (miss, ground arith)
  ]

  pub try_update-Updated :
      (f : A → Result A) (xs ys : List A)
      → ((x y : A) → f x ≡ ok y → R x y)
      → try_update p f xs ≡ ok ys
      → Updated xs ys
  try_update-Updated f [] ys keeps e = subst (Updated []) (ok-injective [] ys e) tt
  try_update-Updated f (x ∷ xs) zs keeps e =
      let (y, row, rest) = bind_result-eq-ok _ _ zs e in
      let (ys, tail, whole) = bind_result-eq-ok _ _ zs rest in
      subst (Updated (x ∷ xs)) (ok-injective (y ∷ ys) zs whole)
        (Changed-row f x y keeps row, try_update-Updated f xs ys keeps tail)
