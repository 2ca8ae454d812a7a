-- ===== src/Base/Int.antt =====
-- Signed integers over the native numbers, as C's `int` where it does not overflow.
use Prim.Native.Nat.{ℕ, suc, ◌-◌, ◌+◌, ◌≤◌, ◌<◌, compare, Ordering}
use mathlib.Core.Path.{◌≡◌}
use mathlib.Core.Bool.{Bool, true, false}
use native.Mathlib.Omega.{arith}

-- `negsuc n` is -(n + 1).
pub data ℤ : Type 0 where
  pos : ℕ → ℤ
  negsuc : ℕ → ℤ

abbrev pub pos_part : ℤ → ℕ
pos_part (pos n) = n
pos_part (negsuc n) = 0

abbrev pub neg_part : ℤ → ℕ
neg_part (pos n) = 0
neg_part (negsuc n) = suc n

-- a - b
abbrev pub sub_ℕ : ℕ → ℕ → ℤ
sub_ℕ a b = elim (compare a b) [ Ordering.lt ↦ negsuc (b - a - 1) | _ ↦ pos (a - b) ]

infixl 65 ◌+ℤ◌ ◌-ℤ◌
abbrev pub ◌+ℤ◌ : ℤ → ℤ → ℤ
a +ℤ b = sub_ℕ (pos_part a + pos_part b) (neg_part a + neg_part b)

abbrev pub ◌-ℤ◌ : ℤ → ℤ → ℤ
a -ℤ b = sub_ℕ (pos_part a + neg_part b) (neg_part a + pos_part b)

abbrev pub ltb_ℤ : ℤ → ℤ → Bool
ltb_ℤ a b = elim (compare (pos_part a + neg_part b) (pos_part b + neg_part a)) [
  | Ordering.lt ↦ true
  | _ ↦ false
]

pub sub_ℕ-zero : (a b : ℕ) → sub_ℕ a b ≡ pos 0 → a ≡ b
sub_ℕ-zero a b h = ground arith

-- A difference is at most what it starts from.
pub sub_ℕ-pos_part : (a b : ℕ) → pos_part (sub_ℕ a b) ≤ a
sub_ℕ-pos_part a b = ground arith

-- The positive part of a sum, where a number is added.
pub add-pos_part : (x : ℤ) (n : ℕ) → pos_part (x +ℤ pos n) ≤ pos_part x + n
add-pos_part x n = sub_ℕ-pos_part (pos_part x + n) _

pub below-ltb_ℤ : (x : ℤ) (m : ℕ) → pos_part x < m → ltb_ℤ x (pos m) ≡ true
below-ltb_ℤ (pos n) m lt = ground arith
below-ltb_ℤ (negsuc n) m lt = ground arith
