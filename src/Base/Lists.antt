-- ===== src/Base/Lists.antt =====
-- Lists measured by native numbers, under the library's names.
use Prim.Native.Nat.{ℕ, zero, suc, ◌+◌, ◌≤◌, ◌<◌}
use native.Mathlib.Decide.{dec_le}
use mathlib.Core.Path.{◌≡◌, subst}
use mathlib.Core.List.{List, [], ◌∷◌, ◌++◌}
use native.Mathlib.Omega.{arith}

module _ {ℓ} {A : Type ℓ} where
  abbrev pub length : List A → ℕ
  length [] = 0
  length (x ∷ xs) = suc (length xs)

  abbrev pub get_or : List A → ℕ → A → A
  get_or [] i d = d
  get_or (x ∷ xs) zero d = x
  get_or (x ∷ xs) (suc i) d = get_or xs i d

  pub length-append : (xs ys : List A) → length (xs ++ ys) ≡ length xs + length ys
  length-append [] ys = omega arith
  length-append (x ∷ xs) ys = omega (arith, length-append xs ys)

-- `for (k = i; k < i + left; k++) s = body k s;`
unfoldable pub loop {ℓ} : {S : Type ℓ} → ℕ → ℕ → (ℕ → S → S) → S → S
loop zero i body s = s
loop (suc left) i body s = loop left (i + 1) body (body i s)

-- What every round keeps, the loop keeps.
pub loop_keeps {ℓ κ} :
    {S : Type ℓ} (P : S → Type κ) (body : ℕ → S → S)
    → ((k : ℕ) (s : S) → P s → P (body k s))
    → (left i : ℕ) (s : S) → P s
    → P (loop left i body s)
unfolding loop
loop_keeps P body keeps zero i s p = p
loop_keeps P body keeps (suc left) i s p =
    loop_keeps P body keeps left (i + 1) (body i s) (keeps i s p)

-- What one round establishes and the others keep holds behind the loop.
pub loop_establishes {ℓ κ} :
    {S : Type ℓ} (P : S → Type κ) (body : ℕ → S → S)
    → ((k : ℕ) (s : S) → P s → P (body k s))
    → (left i k : ℕ) (s : S) → i ≤ k
    → k < i + left
    → ((s : S) → P (body k s))
    → P (loop left i body s)
unfolding loop
loop_establishes P body keeps zero i k s le lt here = absurd (omega arith)
loop_establishes P body keeps (suc left) i k s le lt here = elim (dec_le (suc i) k) [
  | yes behind ↦
      loop_establishes P body keeps left (i + 1) k (body i s) (omega arith) (omega arith) here
  | no now ↦
      let e : k ≡ i = omega arith in
      loop_keeps P body keeps left (i + 1) (body i s) (subst (λ j. P (body j s)) e (here s))
]

-- The rounds run below the bound only.
pub loop_keeps_below {ℓ κ} :
    {S : Type ℓ} (P : S → Type κ) (body : ℕ → S → S) (n : ℕ)
    → ((k : ℕ) (s : S) → k < n → P s → P (body k s))
    → (left i : ℕ) (s : S) → i + left ≤ n
    → P s
    → P (loop left i body s)
unfolding loop
loop_keeps_below P body n keeps zero i s le p = p
loop_keeps_below P body n keeps (suc left) i s le p =
    loop_keeps_below P body n keeps left (i + 1) (body i s) (omega arith)
      (keeps i s (omega arith) p)
