-- ===== src/Prelude/Double.antt =====
-- `Number.prototype.toString` on natural numbers below 10^21, as the number that its text stands for: of the decimal
-- numbers that are read back as the same double, the closest one of the fewest digits.
use Prim.Native.Nat.{ℕ, zero, suc, ◌-◌, ◌*◌, ◌/◌, ◌%◌, ◌^◌, ◌≤◌, ◌<◌}
use mathlib.Core.Path.{◌≡◌, refl}
use mathlib.Core.Logic.{inl, inr, ◌⊎◌}
use mathlib.Core.Bool.{true, false, ◌&&◌}
use mathlib.Core.Option.{Option, none, some}
use native.Mathlib.Omega.{arith}
use payment_apis.Prelude.Tests.{ltb, leb, ◌==◌, if◌then◌else◌, Bool-cases, Option-cases}

-- `Number.MAX_SAFE_INTEGER`
abbrev pub max_safe_integer : ℕ
max_safe_integer = 2 ^ 53 - 1

-- The distance of the doubles around a number: g, or what it is doubled to. A double has an exponent of at most 971.
unfoldable pub gap : ℕ → ℕ → ℕ → ℕ
gap zero g n = g
gap (suc exponents) g n = elim (ltb n (2 ^ 53 * g)) [ true ↦ g | false ↦ gap exponents (2 * g) n ]

-- The multiple of g that is nearest, of two the one with an even factor.
unfoldable pub nearest : ℕ → ℕ → ℕ → ℕ
nearest g q r =
    if ltb (2 * r) g
    then q * g
    else if ltb g (2 * r)
    then suc q * g
    else if q % 2 == 0
    then q * g
    else suc q * g

-- The double that a decimal number is read as.
unfoldable pub double_of : ℕ → ℕ
double_of n = let g = gap 971 1 n in nearest g (n / g) (n % g)

-- Of the two decimal numbers around n, the closer one that is read as n, if there is one.
abbrev pub closer : ℕ → ℕ → ℕ → Option ℕ
closer n low high =
    if (double_of low == n) && ((double_of high == n) && ltb (high - n) (n - low))
    then some high
    else if double_of low == n
    then some low
    else if double_of high == n
    then some high
    else none

-- The multiples of 10^k around n.
abbrev pub around : ℕ → ℕ → Option ℕ
around n p = closer n (n / p * p) (suc (n / p) * p)

abbrev pub or_else : Option ℕ → ℕ → ℕ
or_else none n = n
or_else (some decimal) n = decimal

-- With as many zeros at the end as there can be.
unfoldable pub shortest : ℕ → ℕ → ℕ
shortest zero n = n
shortest (suc k) n = or_else (around n (10 ^ suc k)) (shortest k n)

unfoldable pub to_string : ℕ → ℕ
to_string n = if leb n max_safe_integer then n else shortest 21 n

-- A safe integer is written exactly.
pub to_string-exact : (n : ℕ) → n ≤ max_safe_integer → to_string n ≡ n
unfolding to_string
to_string-exact n h = ground arith

closer-reads : (n low high c : ℕ) → closer n low high ≡ some c → double_of c ≡ n
closer-reads n low high c h = elim (Bool-cases (double_of low == n)) [
  | inl good ↦ elim (Bool-cases ((double_of high == n) && ltb (high - n) (n - low))) [
    | inl better ↦ ground arith
    | inr worse ↦ ground arith
  ]
  | inr bad ↦ ground arith
]

shortest-cases : (k n : ℕ) → (shortest k n ≡ n) ⊎ (double_of (shortest k n) ≡ n)
unfolding shortest
shortest-cases zero n = inl refl
shortest-cases (suc k) n = elim (Option-cases (around n (10 ^ suc k))) [
  | inl missing ↦ rw missing (shortest-cases k n)
  | inr (c, found) ↦ rw found (inr (closer-reads n _ _ c found))
]

nonzero : (n m : ℕ) → 0 < n → (m ≡ n) ⊎ (double_of m ≡ n) → 0 < m
unfolding double_of gap nearest
nonzero n zero h (inl e) = absurd (omega (arith, h, e))
nonzero n zero h (inr e) = absurd (omega (arith, h, e))
nonzero n (suc m) h e = omega arith

-- A positive number is not written as zero.
pub to_string-positive : (n : ℕ) → 0 < n → 0 < to_string n
unfolding to_string
to_string-positive n h = elim (Bool-cases (leb n max_safe_integer)) [
  | inl safe ↦ rw safe h
  | inr large ↦ rw large (nonzero n (shortest 21 n) h (shortest-cases 21 n))
]
