-- ===== src/Base/Bits.antt =====
-- Facts about bytes that are checked at every value.
use Prim.Native.Nat.{ℕ, zero, suc, ◌<◌}
use mathlib.Core.Path.{◌≡◌, refl}
use mathlib.Core.Bool.{Bool, true, false, not, ◌&&◌}
use native.Mathlib.Omega.{arith}

unfoldable pub all_below : ℕ → (ℕ → Bool) → Bool
all_below zero p = true
all_below (suc n) p = p n && all_below n p

pub all_below-lt : (n : ℕ) (p : ℕ → Bool) (x : ℕ) → all_below n p ≡ true → x < n → p x ≡ true
unfolding all_below
all_below-lt zero p x h lt = absurd (omega arith)
all_below-lt (suc n) p x h lt = ground (arith, all_below-lt n p x)

-- Both are the same truth value.
abbrev pub same : Bool → Bool → Bool
same true b = b
same false b = not b

pub same-eq : (a b : Bool) → same a b ≡ true → a ≡ b
same-eq true true e = refl
same-eq true false e = ground arith
same-eq false true e = ground arith
same-eq false false e = refl
