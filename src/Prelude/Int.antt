-- ===== src/Prelude/Int.antt =====
-- Signed amounts (JavaScript's BigInt) over the native numbers, under the library's names. Sums go
-- through the two parts of an integer, which are numbers that `omega` reads.
use Prim.Native.Nat.{ℕ, suc, ◌+◌, ◌-◌}
use mathlib.Core.Path.{◌≡◌}
use native.Mathlib.Omega.{arith}
use payment_apis.Prelude.Tests.{leb, if◌then◌else◌}

-- `negsuc n` is -(n + 1).
pub data ℤ : Type 0 where
  pos : ℕ → ℤ
  negsuc : ℕ → ℤ

abbrev pub pos_part : ℤ → ℕ
pos_part (pos n) = n
pos_part (negsuc n) = 0

abbrev pub neg_part : ℤ → ℕ
neg_part (pos n) = 0
neg_part (negsuc n) = suc n

-- a - b, as an integer.
abbrev pub sub_ℕ : ℕ → ℕ → ℤ
sub_ℕ a b = if leb b a then pos (a - b) else negsuc (b - a - 1)

-- -n, as an integer.
abbrev pub neg : ℕ → ℤ
neg n = sub_ℕ 0 n

infixl 65 ◌+ℤ◌
unfoldable pub ◌+ℤ◌ : ℤ → ℤ → ℤ
a +ℤ b = sub_ℕ (pos_part a + pos_part b) (neg_part a + neg_part b)

-- With this the sum can stay shut, at any depth.
pub +ℤ_parts :
    (a b : ℤ)
    → pos_part (a +ℤ b) + neg_part a + neg_part b ≡ neg_part (a +ℤ b) + pos_part a + pos_part b
unfolding ◌+ℤ◌
+ℤ_parts a b = ground arith

pub eq_of_parts : (a b : ℤ) → pos_part a + neg_part b ≡ pos_part b + neg_part a → a ≡ b
eq_of_parts a b h = ground arith

pub ruleset int_laws = (arith, +ℤ_parts, eq_of_parts)

-- A sum that falls by an amount and rises by it again is back where it was.
pub neg_then_pos : (a b c n : ℕ) → pos b ≡ pos a +ℤ neg n → pos c ≡ pos b +ℤ pos n → c ≡ a
unfolding ◌+ℤ◌
neg_then_pos a b c n down up = ground arith

-- The two moves of a balance, in natural numbers.
pub pos-neg_parts : (a b n : ℕ) → pos b ≡ pos a +ℤ neg n → b + n ≡ a
unfolding ◌+ℤ◌
pos-neg_parts a b n e = ground arith

pub pos-pos_parts : (a b n : ℕ) → pos b ≡ pos a +ℤ pos n → b ≡ a + n
unfolding ◌+ℤ◌
pos-pos_parts a b n e = ground arith
